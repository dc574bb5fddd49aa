-- ===== src/Kcp/Sockets.antt =====
-- Hubs and sockets of kcp with a kcp object that keeps what it is given: the theorems at concrete inputs.
use simple_network.Base.{
  ◌+◌, false, inl, tabulate, tt, ℕ, ◌≡◌, refl, inl, inr, true, false, Option, some, List, [], ◌∷◌,
  ◌++◌, Bytes, ok, fault, arith, among, take, replicate, to_bytes, of_bytes,
}
use simple_network.Buffer.Circle.{Circle}
use simple_network.Connection.{Outside, World, Hooks, connected, disconnected, with_state, on_close}
use simple_network.Udp.{is_accepted}
use simple_network.Kcp.{Ikcp}
use simple_network.Kcp.Acceptor.{Hub, keys, on_accept, close_conv}
use simple_network.Kcp.Session.{Reach, here, next, datagram, gone, on_accept-keeps, Reach-IsValid}
use simple_network.Kcp.Hubs.{IsValid, Accepted, on_accept-IsValid, close_conv-IsValid}
use simple_network.Buffer.Circle.Valid.{byte, contents}
use simple_network.Buffer.Circle.Valid.{IsValid as IsValidCircle}
use simple_network.Connection.Reading.{deliver_all}
use simple_network.Kcp.Updating.{talked, update-stream}
use simple_network.Kcp.Socket.{Line, with_line, with_kcp, on_receive, update}
use simple_network.Kcp.Receiving.{on_receive-zero, on_receive-input, update-null}

-- Two conversations, and the counter at the last one.
abbrev two : Hub
two = record {
  acceptor = record { remote_endpoints = 70 ∷ 80 ∷ []; accepts = 1 };
  convs = (1, 70) ∷ (4294967295, 80) ∷ [];
  conv = 4294967295;
}

two-IsValid : IsValid two
two-IsValid = record {
  convs_differ = (refl, (refl, tt));
  endpoints_differ = (refl, (refl, tt));
  in_step = refl;
}

on_accept-IsValid_example :
    (r : Option ℕ × Hub) × (on_accept 3 false false 90 two ≡ ok r)
    × IsValid r.1
    × (is_accepted r.1.acceptor 90 ≡ true)
    × Accepted 90 two r
on_accept-IsValid_example = on_accept-IsValid 3 90 two two-IsValid (omega arith) (omega arith)

close_conv-IsValid_example :
    IsValid (close_conv 4294967295 80 two)
    × (among 4294967295 (keys (close_conv 4294967295 80 two).convs) ≡ false)
    × (is_accepted (close_conv 4294967295 80 two).acceptor 80 ≡ false)
close_conv-IsValid_example =
    close_conv-IsValid 4294967295 80 two two-IsValid
      (inr (omega arith, omega arith, inl (refl, refl)))

-- A kcp object is the list of what it was given, and hands a datagram to its output at each update.
abbrev keeping : Ikcp (List Bytes)
keeping = record {
  create = λ conv. [];
  wndsize = λ k sent received. k;
  nodelay = λ k nodelay interval resend nc. k;
  send = λ k bytes. k ++ (bytes ∷ []);
  input = λ k bytes. k ++ (bytes ∷ []);
  update = λ k current. (k, (1 ∷ 2 ∷ []) ∷ []);
  recv = λ k size. ([], k);
}

abbrev quiet : Hooks (Line (List Bytes) ℕ)
quiet = record {
  on_connected = ok;
  on_disconnected = ok;
  on_recv = λ w r. ok w;
  open_socket = ok;
  close_socket = ok;
  do_write = ok;
}

abbrev empty : Circle
empty = record { block = record { mem = replicate 8 0; max_size = 4096 }; head = 0; tail = 0 }

abbrev world : World (Line (List Bytes) ℕ)
world = record {
  recv_buff = empty;
  out = record {
    state = connected;
    send_buff = empty;
    env = record { kcp = some []; datagrams = []; reads = 1; is_open = true; app = 0 };
  };
}

on_receive-zero_example :
    (w' : World (Line (List Bytes) ℕ)) × (on_receive keeping quiet 9 false
        (to_bytes 0 ++ 5 ∷ [])
        5
        world
      ≡ ok w')
    × (w'.out.env.reads ≡ 0)
    × (w' ≡ with_line world (record world.out.env { reads = 0 }))
unfolding of_bytes to_bytes
on_receive-zero_example = on_receive-zero keeping quiet 9 (to_bytes 0 ++ 5 ∷ []) 5 world refl refl

on_receive-input_example :
    on_receive keeping quiet 9 false (7 ∷ 0 ∷ 0 ∷ 0 ∷ 5 ∷ []) 5 world
    ≡ ok (with_kcp world (some (keeping.input [] (take 5 (7 ∷ 0 ∷ 0 ∷ 0 ∷ 5 ∷ [])))))
unfolding of_bytes
on_receive-input_example =
    on_receive-input keeping quiet 9 (7 ∷ 0 ∷ 0 ∷ 0 ∷ 5 ∷ []) 5 [] world (omega arith) refl
      (omega arith)

update-null_example : update keeping quiet 9 9 (λ bytes. true) 20 world ≡ fault
unfolding on_close
update-null_example =
    update-null keeping quiet 9 9 (λ bytes. true) 20 [] [] (1 ∷ 2 ∷ []) world
      (with_state
        (with_line world (record world.out.env { datagrams = (1 ∷ 2 ∷ []) ∷ []; is_open = false }))
        disconnected)
      refl refl refl refl

-- An object that has received a packet of two bytes, and an application that counts packets.
abbrev received : Ikcp (List Bytes)
received = record keeping { recv = λ k size. (2 ∷ 0 ∷ 0 ∷ 0 ∷ 5 ∷ 6 ∷ [], k) }

abbrev counted : Outside (Line (List Bytes) ℕ) → Bytes → Outside (Line (List Bytes) ℕ)
counted out body = record out { env = record out.env { app = out.env.app + 1 } }

abbrev counting : Hooks (Line (List Bytes) ℕ)
counting = record quiet { on_recv = λ w r. ok (record w { out = counted w.out [] }) }

empty-IsValid : IsValidCircle empty
empty-IsValid = record {
  sized = record { bits = 3; power = refl; small = omega arith };
  bounded = omega arith;
  head_in = omega arith;
  tail_in = omega arith;
}

update-stream_example :
    (c : Circle) × (update received counting 9 9 (λ bytes. false) 20 world
      ≡ ok (record {
        recv_buff = c;
        out = deliver_all counted (talked world [] ((1 ∷ 2 ∷ []) ∷ [])).out ((5 ∷ 6 ∷ []) ∷ []);
      }))
    × IsValidCircle c
    × (contents c ≡ [])
unfolding tabulate byte to_bytes
update-stream_example =
    update-stream received counting counted 9 9 20 (λ bytes. false) world [] [] []
      ((1 ∷ 2 ∷ []) ∷ []) (2 ∷ 0 ∷ 0 ∷ 0 ∷ 5 ∷ 6 ∷ []) ((5 ∷ 6 ∷ []) ∷ []) []
      (λ w body rest v e. refl) (omega arith) (omega arith) empty-IsValid refl refl (λ bytes. refl)
      refl (inl (omega arith)) (omega arith) (omega arith) refl (inl (omega arith))

-- A socket goes, and then a datagram comes from an endpoint that is refused.
abbrev one : Hub
one = close_conv 4294967295 80 two

one-Reach : Reach two one
one-Reach = next here (gone 4294967295 80 (inr (omega arith, omega arith, inl (refl, refl))))

one-IsValid : IsValid one
one-IsValid = Reach-IsValid two-IsValid one-Reach

refused_one : (r : Option ℕ × Hub) × (on_accept 3 false true 90 one ≡ ok r) × IsValid r.1
unfolding close_conv
refused_one = on_accept-keeps 3 90 false true one one-IsValid (omega arith) (omega arith)

refused-Reach : Reach two refused_one.0.1
unfolding close_conv
refused-Reach =
    next one-Reach
      (datagram 3 90 false true refused_one.0.0 (omega arith) (omega arith) refused_one.1)

Reach-IsValid_example : IsValid refused_one.0.1
Reach-IsValid_example = Reach-IsValid two-IsValid refused-Reach
