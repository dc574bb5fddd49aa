-- ===== src/Kcp/Answers.antt =====
-- A socket with four bytes queued, when the first datagram comes: the theorem at a concrete input.
use simple_network.Base.{
  ℕ, ◌≡◌, refl, false, true, none, some, List, [], ◌∷◌, take, word_size, of_bytes, Bytes, ok, arith,
}
use simple_network.Buffer.Circle.{Circle}
use simple_network.Buffer.Circle.Valid.{IsValid, count, contents}
use simple_network.Connection.{World, Hooks, connected, with_send}
use simple_network.Kcp.{Ikcp, create_kcp}
use simple_network.Kcp.Sending.{send_all, joined}
use simple_network.Kcp.Socket.{Line, with_kcp, on_receive}
use simple_network.Kcp.Starting.{on_receive-first}

abbrev keeping : Ikcp (List Bytes)
keeping = record {
  create = λ conv. (conv ∷ []) ∷ [];
  wndsize = λ k sent received. k;
  nodelay = λ k nodelay interval resend nc. k;
  send = λ k bytes. bytes ∷ k;
  input = λ k bytes. bytes ∷ k;
  update = λ k current. (k, []);
  recv = λ k size. ([], k);
}

abbrev quiet : Hooks (Line (List Bytes) ℕ)
quiet = record {
  on_connected = ok;
  on_disconnected = ok;
  on_recv = λ w r. ok w;
  open_socket = ok;
  close_socket = ok;
  do_write = ok;
}

-- Round the end of the block.
abbrev buffered : Circle
buffered = record {
  block = record { mem = 3 ∷ 4 ∷ 0 ∷ 0 ∷ 0 ∷ 0 ∷ 1 ∷ 2 ∷ []; max_size = 4096 };
  head = 6;
  tail = 2;
}

buffered-IsValid : IsValid buffered
buffered-IsValid = record {
  sized = record { bits = 3; power = refl; small = omega arith };
  bounded = omega arith;
  head_in = omega arith;
  tail_in = omega arith;
}

abbrev world : World (Line (List Bytes) ℕ)
world = record {
  recv_buff = buffered;
  out = record {
    state = connected;
    send_buff = buffered;
    env = record { kcp = none; datagrams = []; reads = 1; is_open = true; app = 0 };
  };
}

on_receive-first_example :
    (messages : List Bytes) × (c : Circle) × (on_receive keeping quiet 9 false
        (7 ∷ 0 ∷ 0 ∷ 0 ∷ 5 ∷ [])
        5
        world
      ≡ ok (
          with_send
            (with_kcp world (
              some (
                keeping.input
                  (send_all keeping
                    (create_kcp keeping (of_bytes (take word_size (7 ∷ 0 ∷ 0 ∷ 0 ∷ 5 ∷ []))))
                    messages)
                  (7 ∷ 0 ∷ 0 ∷ 0 ∷ 5 ∷ []))))
            c))
    × (joined messages ≡ contents buffered)
    × IsValid c
    × (count c ≡ 0)
unfolding of_bytes
on_receive-first_example =
    on_receive-first keeping quiet 9 (7 ∷ 0 ∷ 0 ∷ 0 ∷ 5 ∷ []) 5 world (omega arith) refl
      (omega arith) buffered-IsValid (omega arith)
