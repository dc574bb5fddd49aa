-- ===== src/Tcp/Sessions.antt =====
-- A short session of a TCP connection: a byte is queued, and then the socket can be written.
use simple_network.Base.{
  tt, ℕ, ◌≡◌, refl, inl, inr, true, [], ◌∷◌, ◌++◌, ok, arith, List, tabulate, false,
}
use simple_network.Buffer.Circle.{Circle}
use simple_network.Buffer.Circle.Index.{IsSize}
use simple_network.Buffer.Circle.Valid.{IsValid, byte}
use simple_network.Connection.{World, Hooks, connected, with_send}
use simple_network.Tcp.{Link, Reply, success, would_block, do_write, on_writable}
use simple_network.Tcp.Sending.{outgoing, AreFine, IsAwake, on_writable-stream}
use simple_network.Tcp.Session.{Reach, here, queue, writable, Holds, Reach-stream}

-- Four bytes, round the end of the block, and one more behind them.
abbrev buffered : Circle
buffered = record {
  block = record { mem = 3 ∷ 4 ∷ 0 ∷ 0 ∷ 0 ∷ 0 ∷ 1 ∷ 2 ∷ []; max_size = 4096 };
  head = 6;
  tail = 2;
}

abbrev longer : Circle
longer = record {
  block = record { mem = 3 ∷ 4 ∷ 5 ∷ 0 ∷ 0 ∷ 0 ∷ 1 ∷ 2 ∷ []; max_size = 4096 };
  head = 6;
  tail = 3;
}

eight : IsSize 8
eight = record { bits = 3; power = refl; small = omega arith }

buffered-IsValid : IsValid buffered
buffered-IsValid = record {
  sized = eight;
  bounded = omega arith;
  head_in = omega arith;
  tail_in = omega arith;
}

longer-IsValid : IsValid longer
longer-IsValid = record {
  sized = eight;
  bounded = omega arith;
  head_in = omega arith;
  tail_in = omega arith;
}

abbrev start : World (Link ℕ)
start = record {
  recv_buff = buffered;
  out = record {
    state = connected;
    send_buff = buffered;
    env = record { sending = true; writes = 1; reads = 1; is_open = true; sent = 9 ∷ []; app = 0 };
  };
}

abbrev quiet : Hooks (Link ℕ)
quiet = record {
  on_connected = ok;
  on_disconnected = ok;
  on_recv = λ w r. ok w;
  open_socket = ok;
  close_socket = ok;
  do_write = λ w. ok (do_write w);
}

abbrev queued : World (Link ℕ)
queued = do_write (with_send start longer)

queued-Reach : Reach quiet start ([] ++ (5 ∷ [])) queued
unfolding tabulate byte
queued-Reach = queue longer (5 ∷ []) here longer-IsValid refl

-- One byte goes, then one, and then the peer has no room.
abbrev answers : List Reply
answers =
    record { room = 1; code = success }
    ∷ record { room = 7; code = success }
    ∷ record { room = 0; code = would_block }
    ∷ record { room = 5; code = success }
    ∷ record { room = 5; code = success }
    ∷ record { room = 5; code = success }
    ∷ []

answers-AreFine : AreFine answers
answers-AreFine = (
  inl (refl, omega arith),
  (
    inl (refl, omega arith),
    (inr refl, (inl (refl, omega arith), (inl (refl, omega arith), (inl (refl, omega arith), tt)))),
  ),
)

written :
    (w' : World (Link ℕ)) × (on_writable quiet false answers queued ≡ ok w')
    × IsValid w'.out.send_buff
    × IsAwake w'
    × (outgoing w' ≡ outgoing queued)
unfolding do_write
written = on_writable-stream quiet answers queued longer-IsValid refl answers-AreFine (omega arith)

written-Reach : Reach quiet start ([] ++ (5 ∷ [])) written.0
unfolding do_write
written-Reach = writable answers queued-Reach refl answers-AreFine (omega arith) written.1

Reach-stream_example : Holds start ([] ++ (5 ∷ [])) written.0
Reach-stream_example = Reach-stream buffered-IsValid (inl (refl, refl), (λ p. refl)) written-Reach
