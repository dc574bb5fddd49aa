-- ===== src/Tcp/Peers.antt =====
-- Two ends of a TCP connection with small buffers: the theorems about receiving at concrete inputs.
use simple_network.Base.{
  ℕ, ◌+◌, ◌^◌, ◌<◌, ◌≡◌, refl, inl, true, false, List, [], ◌∷◌, ◌++◌, ok, arith, replicate, Bytes,
  tabulate, append_assoc, to_bytes, length, length-to_bytes, drop-append, take-append, ◌>>=◌,
}
use simple_network.Buffer.Circle.{Circle, read}
use simple_network.Buffer.Circle.Index.{IsSize}
use simple_network.Buffer.Circle.Valid.{IsValid, byte, count, count-lt, contents}
use simple_network.Buffer.Circle.Reading.{read-peek}
use simple_network.Packet.Reading.{frame-count}
use simple_network.Packet.Writing.{Roomy}
use simple_network.Connection.{World, Outside, Hooks, connected, with_send}
use simple_network.Connection.Reading.{Delivers, deliver_all}
use simple_network.Connection.Sending.{send_values}
use simple_network.Tcp.{Link, do_read, do_write, on_readable}
use simple_network.Tcp.Acceptor.{Acceptor, on_accept, run_accepts}
use simple_network.Tcp.Accepting.{succeed, run_accepts-all}
use simple_network.Tcp.Receiving.{called, once}
use simple_network.Tcp.RoundTrip.{send-receive}

-- `on_recv` puts the packet's bytes at the end of the log.
abbrev logging : Hooks (Link (List Bytes))
logging = record {
  on_connected = ok;
  on_disconnected = ok;
  on_recv = λ w r. (do
    (bytes, c) ← read (2 ^ 30 + 1) w.recv_buff r.size r.tail true
    ok (record w {
      out = record w.out { env = record w.out.env { app = w.out.env.app ++ bytes ∷ [] } };
    }));
  open_socket = ok;
  close_socket = ok;
  do_write = λ w. ok (do_write w);
}

abbrev log : Outside (Link (List Bytes)) → Bytes → Outside (Link (List Bytes))
log out body = record out { env = record out.env { app = out.env.app ++ body ∷ [] } }

logging-Delivers : Delivers logging log
logging-Delivers w body rest v e = rw (
  read-peek (2 ^ 30 + 1) (length body) 4 v
      (omega (arith, frame-count body rest v e, count-lt v, v.sized.small))
      (omega (arith, frame-count body rest v e)),
  e,
  append_assoc (to_bytes (length body)) body rest,
  drop-append 4 (to_bytes (length body)) (body ++ rest) (length-to_bytes (length body)),
  take-append (length body) body rest refl,
)

thirty_two : IsSize 32
thirty_two = record { bits = 5; power = refl; small = omega arith }

-- Nothing, and a part of a packet.
abbrev empty : Circle
empty = record { block = record { mem = replicate 32 0; max_size = 4096 }; head = 0; tail = 0 }

abbrev started : Circle
started = record {
  block = record { mem = 9 ∷ 2 ∷ 0 ∷ 0 ∷ 0 ∷ 5 ∷ replicate 26 0; max_size = 4096 };
  head = 1;
  tail = 6;
}

-- A packet on its way out.
abbrev filled : Circle
filled = record {
  block = record { mem = 1 ∷ 0 ∷ 0 ∷ 0 ∷ 7 ∷ replicate 27 0; max_size = 4096 };
  head = 0;
  tail = 5;
}

small-IsValid :
    (h t : ℕ) (m : Bytes)
    → length m ≡ 32
    → h < 32
    → t < 32
    → IsValid (record { block = record { mem = m; max_size = 4096 }; head = h; tail = t })
small-IsValid h t m e p q = record {
  sized = rw e thirty_two;
  bounded = omega arith;
  head_in = omega (arith, e);
  tail_in = omega (arith, e);
}

abbrev world : Circle → Circle → World (Link (List Bytes))
world recv send = record {
  recv_buff = recv;
  out = record {
    state = connected;
    send_buff = send;
    env = record { sending = false; writes = 0; reads = 1; is_open = true; sent = []; app = [] };
  };
}

filled-Roomy : Roomy 2 512 filled
filled-Roomy = record {
  valid = small-IsValid 0 5 filled.block.mem refl (omega arith) (omega arith);
  front = refl;
  large = omega arith;
  steps = 2;
  steps_le = omega arith;
  reach = refl;
  below = omega arith;
}

send-receive_example :
    (c : Circle) × (d : Circle) × (send_values logging 600
        (world empty filled)
        ((2 ∷ 3 ∷ []) ∷ (4 ∷ []) ∷ [])
      ≡ logging.do_write (with_send (world empty filled) c))
    × (on_readable logging 600 3 false (once (contents c)) (world empty filled)
        ≡ ok (
            do_read (record {
              recv_buff = d;
              out =
                  deliver_all log
                    (called (world empty filled)).out
                    ((7 ∷ []) ∷ (2 ∷ 3 ∷ 4 ∷ []) ∷ []);
            })))
    × (count d ≡ 0)
unfolding tabulate byte to_bytes
send-receive_example =
    send-receive logging logging log 600 3 (world empty filled) (world empty filled) ((7 ∷ []) ∷ [])
      ((2 ∷ 3 ∷ []) ∷ (4 ∷ []) ∷ []) filled-Roomy (omega arith) (omega arith) (omega arith)
      (inl (omega arith)) refl logging-Delivers (omega arith) (omega arith)
      (small-IsValid 0 0 empty.block.mem refl (omega arith) (omega arith)) refl (omega arith)
      (omega arith)

abbrev waiting : Acceptor
waiting = record { accepted = 1 ∷ []; accepts = 1; is_listening = true }

run_accepts-all_example :
    (run_accepts (succeed (2 ∷ 3 ∷ [])) waiting
      ≡ record waiting { accepted = waiting.accepted ++ 2 ∷ 3 ∷ [] })
    × (on_accept true 4 (run_accepts (succeed (2 ∷ 3 ∷ [])) waiting)
        ≡ record waiting { accepted = waiting.accepted ++ 2 ∷ 3 ∷ []; accepts = 0 })
run_accepts-all_example = run_accepts-all (2 ∷ 3 ∷ []) waiting 4 refl
