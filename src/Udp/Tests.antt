-- ===== src/Udp/Tests.antt =====
-- A UDP socket with a small send buffer, and an acceptor: the theorems at concrete inputs.
use simple_network.Base.{
  inl, ◌+◌, Bytes, replicate, tabulate, to_bytes, tt, AllDiffer, ℕ, ◌≡◌, ◌≢◌, refl, true, false,
  not, [], ◌∷◌, ◌++◌, ok, arith, ◌>>=◌,
}
use simple_network.Buffer.Circle.{Circle, reset}
use simple_network.Buffer.Circle.Valid.{byte, IsValid, contents}
use simple_network.Connection.Reading.{deliver_all}
use simple_network.Udp.Receiving.{waiting, called, on_receive-stream}
use simple_network.Connection.{
  Outside, World, Hooks, connected, disconnected, with_send, with_state,
}
use simple_network.Udp.{
  on_receive, Port, Acceptor, with_port, do_write, on_accept, is_accepted, close_endpoint,
}
use simple_network.Udp.Sending.{do_write-datagram}
use simple_network.Udp.Connector.{connect, say_hello}
use simple_network.Udp.Connecting.{reopened, connect-outcome}
use simple_network.Udp.Accepting.{on_accept-once, close_endpoint-forgets}

-- Four bytes, round the end of the block.
abbrev buffered : Circle
buffered = record {
  block = record { mem = 3 ∷ 4 ∷ 0 ∷ 0 ∷ 0 ∷ 0 ∷ 1 ∷ 2 ∷ []; max_size = 4096 };
  head = 6;
  tail = 2;
}

buffered-IsValid : IsValid buffered
buffered-IsValid = record {
  sized = record { bits = 3; power = refl; small = omega arith };
  bounded = omega arith;
  head_in = omega arith;
  tail_in = omega arith;
}

abbrev world : World (Port ℕ)
world = record {
  recv_buff = buffered;
  out = record {
    state = connected;
    send_buff = buffered;
    env = record { datagrams = (9 ∷ []) ∷ []; reads = 1; is_open = true; app = 0 };
  };
}

abbrev quiet : Hooks (Port ℕ)
quiet = record {
  on_connected = ok;
  on_disconnected = ok;
  on_recv = λ w r. ok w;
  open_socket = ok;
  close_socket = ok;
  do_write = ok;
}

do_write-datagram_example :
    do_write quiet false world
    ≡ ok (
        with_send
          (with_port world (record world.out.env {
            datagrams = world.out.env.datagrams ++ (contents world.out.send_buff ∷ []);
          }))
          (reset world.out.send_buff))
do_write-datagram_example =
    do_write-datagram quiet world buffered-IsValid (omega arith) (omega arith)

-- Two endpoints, and one datagram on the way.
abbrev accepting : Acceptor
accepting = record { remote_endpoints = 7 ∷ 8 ∷ []; accepts = 1 }

on_accept-once_example :
    ((on_accept false false 9 accepting).0 ≡ not (is_accepted accepting 9))
    × (is_accepted (on_accept false false 9 accepting).1 9 ≡ true)
    × AllDiffer (on_accept false false 9 accepting).1.remote_endpoints
on_accept-once_example = on_accept-once 9 accepting (refl, (refl, tt))

close_endpoint-forgets_example :
    (is_accepted (close_endpoint accepting 7) 7 ≡ false)
    × ((y : ℕ) → y ≢ 7 → is_accepted (close_endpoint accepting 7) y ≡ is_accepted accepting y)
    × AllDiffer (close_endpoint accepting 7).remote_endpoints
close_endpoint-forgets_example = close_endpoint-forgets 7 accepting (refl, (refl, tt))

abbrev down : World (Port ℕ)
down = with_state world disconnected

connect-outcome_example :
    (connect quiet false false down ≡ (
      quiet.on_connected (with_state (say_hello (reopened down)) connected) >>= quiet.open_socket))
    × (connect quiet true false down
        ≡ (quiet.close_socket (with_state (reopened down) disconnected) >>= quiet.on_disconnected))
    × (connect quiet false true down ≡ (
        quiet.close_socket (with_state (say_hello (reopened down)) disconnected)
        >>= quiet.on_disconnected))
connect-outcome_example = connect-outcome quiet down refl

-- A datagram of one packet and a part of another.
abbrev empty : Circle
empty = record { block = record { mem = replicate 16 0; max_size = 4096 }; head = 0; tail = 0 }

empty-IsValid : IsValid empty
empty-IsValid = record {
  sized = record { bits = 4; power = refl; small = omega arith };
  bounded = omega arith;
  head_in = omega arith;
  tail_in = omega arith;
}

abbrev counted : Outside (Port ℕ) → Bytes → Outside (Port ℕ)
counted out body = record out { env = record out.env { app = out.env.app + 1 } }

abbrev counting : Hooks (Port ℕ)
counting = record quiet { on_recv = λ w r. ok (record w { out = counted w.out [] }) }

on_receive-stream_example :
    (c : Circle) × (on_receive counting 9 9 false
        (1 ∷ 0 ∷ 0 ∷ 0 ∷ 7 ∷ 2 ∷ 0 ∷ [])
        (record world { recv_buff = empty })
      ≡ ok (
          waiting (record {
            recv_buff = c;
            out = deliver_all counted (called world).out ((7 ∷ []) ∷ []);
          })))
    × IsValid c
    × (contents c ≡ [])
unfolding tabulate byte to_bytes
on_receive-stream_example =
    on_receive-stream counting counted 9 9 (record world { recv_buff = empty })
      (1 ∷ 0 ∷ 0 ∷ 0 ∷ 7 ∷ 2 ∷ 0 ∷ []) ((7 ∷ []) ∷ []) (2 ∷ 0 ∷ []) (λ w body rest v e. refl)
      (omega arith) (omega arith) empty-IsValid (omega arith) (omega arith) refl (inl (omega arith))
      (omega arith)
