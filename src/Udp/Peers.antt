-- ===== src/Udp/Peers.antt =====
-- Two ends of a UDP connection with small buffers: the theorem about a datagram at a concrete input.
use simple_network.Base.{
  ℕ, ◌+◌, ◌≡◌, refl, inl, true, false, [], ◌∷◌, ok, arith, replicate, Bytes, tabulate, to_bytes,
}
use simple_network.Buffer.Circle.{Circle, reset}
use simple_network.Buffer.Circle.Valid.{IsValid, byte, contents}
use simple_network.Packet.Writing.{Roomy}
use simple_network.Connection.{World, Outside, Hooks, connected, with_send}
use simple_network.Connection.Reading.{stream, deliver_all}
use simple_network.Connection.Sending.{send_values}
use simple_network.Udp.{Port, with_port, socket, do_write, on_receive}
use simple_network.Udp.Receiving.{waiting, called}
use simple_network.Udp.RoundTrip.{datagram-receive}

-- Nothing, and a packet on its way out.
abbrev empty : Circle
empty = record { block = record { mem = replicate 16 0; max_size = 4096 }; head = 0; tail = 0 }

abbrev filled : Circle
filled = record {
  block = record { mem = 1 ∷ 0 ∷ 0 ∷ 0 ∷ 7 ∷ replicate 11 0; max_size = 4096 };
  head = 0;
  tail = 5;
}

empty-IsValid : IsValid empty
empty-IsValid = record {
  sized = record { bits = 4; power = refl; small = omega arith };
  bounded = omega arith;
  head_in = omega arith;
  tail_in = omega arith;
}

filled-Roomy : Roomy 2 256 filled
filled-Roomy = record {
  valid = record {
    sized = record { bits = 4; power = refl; small = omega arith };
    bounded = omega arith;
    head_in = omega arith;
    tail_in = omega arith;
  };
  front = refl;
  large = omega arith;
  steps = 2;
  steps_le = omega arith;
  reach = refl;
  below = omega arith;
}

-- The application counts its packets.
abbrev counted : Outside (Port ℕ) → Bytes → Outside (Port ℕ)
counted out body = record out { env = record out.env { app = out.env.app + 1 } }

abbrev counting : Hooks (Port ℕ)
counting = record {
  on_connected = ok;
  on_disconnected = ok;
  on_recv = λ w r. ok (record w { out = counted w.out [] });
  open_socket = ok;
  close_socket = ok;
  do_write = ok;
}

abbrev sender : Hooks (Port ℕ)
sender = socket 9 false counting

writes : (v : World (Port ℕ)) → sender.do_write v ≡ do_write sender false v
unfolding socket do_write
writes v = refl

abbrev world : World (Port ℕ)
world = record {
  recv_buff = empty;
  out = record {
    state = connected;
    send_buff = filled;
    env = record { datagrams = []; reads = 1; is_open = true; app = 0 };
  };
}

datagram-receive_example :
    (c : Circle) × (d : Circle) × (datagram : Bytes) × (send_values sender 600 world
        ((2 ∷ []) ∷ (3 ∷ []) ∷ [])
      ≡ ok (
          with_send
            (with_port world (record world.out.env { datagrams = datagram ∷ [] }))
            (reset c)))
    × (datagram ≡ stream ((7 ∷ []) ∷ (2 ∷ 3 ∷ []) ∷ []))
    × (on_receive counting 600 3 false datagram world
        ≡ ok (
            waiting (record {
              recv_buff = d;
              out = deliver_all counted (called world).out ((7 ∷ []) ∷ (2 ∷ 3 ∷ []) ∷ []);
            })))
    × (contents d ≡ [])
unfolding tabulate byte to_bytes
datagram-receive_example =
    datagram-receive sender counting counted 600 3 world world ((7 ∷ []) ∷ [])
      ((2 ∷ []) ∷ (3 ∷ []) ∷ []) writes filled-Roomy (omega arith) (omega arith) (omega arith)
      (omega arith) (inl (omega arith)) refl (λ w body rest v e. refl) (omega arith) (omega arith)
      empty-IsValid refl (omega arith) (omega arith)
