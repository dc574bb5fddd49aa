-- ===== src/Tcp/Tests.antt =====
-- A TCP socket with a small send buffer: the theorems at concrete inputs.
use simple_network.Base.{
  tt, ℕ, ◌+◌, ◌≡◌, refl, inl, inr, Bool, true, false, [], ◌∷◌, ok, arith, List, Run,
}
use simple_network.Buffer.Circle.{Circle}
use simple_network.Buffer.Circle.Index.{IsSize}
use simple_network.Buffer.Circle.Valid.{IsValid}
use simple_network.Connection.{World, Hooks, connected, disconnect, on_close}
use simple_network.Tcp.{
  Link, Reply, success, would_block, with_link, do_write, on_writable, close, closed,
}
use simple_network.Tcp.Sending.{outgoing, IsAwake, do_write-IsAwake, on_writable-stream}
use simple_network.Tcp.Closing.{IsOver, close-once}

eight : IsSize 8
eight = record { bits = 3; power = refl; small = omega arith }

-- Four bytes, round the end of the block.
abbrev buffered : Circle
buffered = record {
  block = record { mem = 3 ∷ 4 ∷ 0 ∷ 0 ∷ 0 ∷ 0 ∷ 1 ∷ 2 ∷ []; max_size = 4096 };
  head = 6;
  tail = 2;
}

buffered-IsValid : IsValid buffered
buffered-IsValid = record {
  sized = eight;
  bounded = omega arith;
  head_in = omega arith;
  tail_in = omega arith;
}

-- The application counts what it is told of the end of the connection.
abbrev world : Bool → ℕ → World (Link ℕ)
world sending writes = record {
  recv_buff = buffered;
  out = record {
    state = connected;
    send_buff = buffered;
    env = record {
      sending = sending;
      writes = writes;
      reads = 1;
      is_open = true;
      sent = 9 ∷ [];
      app = 0;
    };
  };
}

abbrev count_end : World (Link ℕ) → Run (World (Link ℕ))
count_end w = ok (with_link w (record w.out.env { app = w.out.env.app + 1 }))

abbrev without_socket : Hooks (Link ℕ)
without_socket = record {
  on_connected = ok;
  on_disconnected = count_end;
  on_recv = λ w r. ok w;
  open_socket = ok;
  close_socket = ok;
  do_write = λ w. ok (do_write w);
}

abbrev counting : Hooks (Link ℕ)
counting = record without_socket { close_socket = close without_socket }

do_write-IsAwake_example :
    IsAwake (do_write (world false 0))
    × ((do_write (world false 0)).out.send_buff ≡ buffered)
    × ((do_write (world false 0)).out.env.sent ≡ 9 ∷ [])
do_write-IsAwake_example = do_write-IsAwake (world false 0) buffered-IsValid (inr (refl, refl))

-- One byte goes, then one, and then the peer has no room.
abbrev answers : List Reply
answers =
    record { room = 1; code = success }
    ∷ record { room = 7; code = success }
    ∷ record { room = 0; code = would_block }
    ∷ record { room = 5; code = success }
    ∷ record { room = 5; code = success }
    ∷ []

on_writable-stream_example :
    (w' : World (Link ℕ)) × (on_writable counting false answers (world true 1) ≡ ok w')
    × IsValid w'.out.send_buff
    × IsAwake w'
    × (outgoing w' ≡ outgoing (world true 1))
on_writable-stream_example =
    on_writable-stream counting answers (world true 1) buffered-IsValid refl
      (
        inl (refl, omega arith),
        (
          inl (refl, omega arith),
          (inr refl, (inl (refl, omega arith), (inl (refl, omega arith), tt))),
        ),
      )
      (omega arith)

closes : (v : World (Link ℕ)) → counting.close_socket v ≡ close counting v
unfolding close on_close
closes v = refl

-- What the count makes of a world.
abbrev counted : World (Link ℕ) → World (Link ℕ)
counted w = with_link w (record w.out.env { app = w.out.env.app + 1 })

counts : (v : World (Link ℕ)) → counting.on_disconnected v ≡ ok (counted v)
counts v = refl

close-once_example :
    (v : World (Link ℕ)) × IsOver v
    × (close counting (world true 1) ≡ ok (counted v))
    × (disconnect counting (world true 1) ≡ ok (counted v))
    × (close counting (counted v) ≡ ok (closed (counted v)))
    × (disconnect counting (counted v) ≡ ok (counted v))
close-once_example =
    close-once counting counted (world true 1) closes counts (λ v. refl) buffered-IsValid
      buffered-IsValid refl
