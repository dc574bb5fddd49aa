-- ===== src/Programs/Tests.antt =====
-- The server and the client with small buffers: the theorems at concrete inputs.
use simple_network.Base.{
  ℕ, none, false, among, tt, ◌%◌, ◌^◌, ◌+◌, true, ◌≡◌, refl, some, List, [], ◌∷◌, ◌++◌, Bytes, ok,
  arith, replicate, tabulate, to_bytes,
}
use simple_network.Buffer.Circle.{Circle}
use simple_network.Buffer.Circle.Index.{IsSize}
use simple_network.Buffer.Circle.Valid.{IsValid, byte, count, contents}
use simple_network.Packet.Frames.{frame}
use simple_network.Packet.Reading.{reader_of}
use simple_network.Packet.Writing.{Roomy}
use simple_network.Connection.{World, connected, with_send}
use simple_network.Kcp.{Ikcp}
use simple_network.Kcp.Socket.{with_line, Line, with_kcp}
use simple_network.Timer.{make}
use simple_network.Programs.Server.{Session, with_session, on_recv}
use simple_network.Programs.Server.Echo.{on_recv-echo}
use simple_network.Kcp.Connector
use simple_network.Mgr.{Mgr}
use simple_network.Mgr
use simple_network.Programs.Client
use simple_network.Programs.Client.Counting.{on_time-counts, main-starts, IsTicking, talking}

abbrev keeping : Ikcp (List Bytes)
keeping = record {
  create = λ conv. [];
  wndsize = λ k sent received. k;
  nodelay = λ k nodelay interval resend nc. k;
  send = λ k bytes. k ++ (bytes ∷ []);
  input = λ k bytes. k;
  update = λ k current. (k, []);
  recv = λ k size. ([], k);
}

thirty_two : IsSize 32
thirty_two = record { bits = 5; power = refl; small = omega arith }

-- The number 5, and a byte of the next packet.
abbrev incoming : Circle
incoming = record {
  block = record { mem = 4 ∷ 0 ∷ 0 ∷ 0 ∷ 5 ∷ 0 ∷ 0 ∷ 0 ∷ 4 ∷ replicate 23 0; max_size = 4096 };
  head = 0;
  tail = 9;
}

abbrev empty : Circle
empty = record { block = record { mem = replicate 32 0; max_size = 4096 }; head = 0; tail = 0 }

empty-IsValid : IsValid empty
empty-IsValid = record {
  sized = thirty_two;
  bounded = omega arith;
  head_in = omega arith;
  tail_in = omega arith;
}

incoming-IsValid : IsValid incoming
incoming-IsValid = record {
  sized = thirty_two;
  bounded = omega arith;
  head_in = omega arith;
  tail_in = omega arith;
}

empty-Roomy : Roomy 2 512 empty
empty-Roomy = record {
  valid = empty-IsValid;
  front = refl;
  large = omega arith;
  steps = 2;
  steps_le = omega arith;
  reach = refl;
  below = omega arith;
}

contents-incoming : contents incoming ≡ frame (5 ∷ 0 ∷ 0 ∷ 0 ∷ []) ++ (4 ∷ [])
unfolding tabulate byte to_bytes
contents-incoming = refl

abbrev world : World (Line (List Bytes) Session)
world = record {
  recv_buff = incoming;
  out = record {
    state = connected;
    send_buff = empty;
    env = record {
      kcp = some [];
      datagrams = [];
      reads = 1;
      is_open = true;
      app = record { timer = make; printed = [] };
    };
  };
}

on_recv-echo_example :
    (c : Circle) × (on_recv keeping 600 world (reader_of 4)
      ≡ ok (
          with_send
            (with_kcp
              (with_session world
                (record world.out.env.app { printed = (5 ∷ 0 ∷ 0 ∷ 0 ∷ []) ∷ [] }))
              (some (keeping.send [] (contents empty ++ frame (5 ∷ 0 ∷ 0 ∷ 0 ∷ [])))))
            c))
    × (count c ≡ 0)
on_recv-echo_example =
    on_recv-echo keeping 600 [] world (5 ∷ 0 ∷ 0 ∷ 0 ∷ []) (4 ∷ []) incoming-IsValid
      contents-incoming (omega arith) refl empty-Roomy (omega arith) (omega arith) (omega arith)

-- A client that has counted to 7 and is not answered yet.
abbrev calling : World (Line (List Bytes) ℕ)
calling = record {
  recv_buff = empty;
  out = record {
    state = connected;
    send_buff = empty;
    env = record { kcp = none; datagrams = to_bytes 0 ∷ []; reads = 1; is_open = true; app = 7 };
  };
}

on_time-counts_example :
    (c : Circle) × (Client.on_time keeping 600 9 false false (λ bytes. false) 40 calling
      ≡ ok (
          with_send
            (with_line calling (record calling.out.env { kcp = none; app = (7 + 1) % 2 ^ 32 }))
            c))
    × Roomy 2 512 c
    × (contents c ≡ contents empty ++ frame (to_bytes 7))
unfolding to_bytes
on_time-counts_example =
    on_time-counts keeping 600 9 40 false false (λ bytes. false) calling refl refl empty-Roomy
      (omega arith) (omega arith)

main-starts_example :
    (k : Connector.Connector (List Bytes) ℕ) × (m' : Mgr Unit) × (Client.main keeping 9
        (λ e. false)
        (λ e. false)
        3
        (Mgr.make tt)
      ≡ ok (k, m'))
    × (among 3 m'.timers ≡ true)
    × IsTicking m'
    × (k.remote_endpoint ≡ 1)
    × (k.world.out.state ≡ connected)
    × (k.world.out.env ≡ talking)
unfolding Mgr.make
main-starts_example =
    main-starts keeping 9 3 (λ e. false) (λ e. false) (Mgr.make tt) refl (omega arith) refl refl
