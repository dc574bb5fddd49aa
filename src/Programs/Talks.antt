-- ===== src/Programs/Talks.antt =====
-- The server and the client when kcp has received something: the theorems at concrete inputs.
use simple_network.Base.{
  ℕ, ◌≡◌, refl, inl, true, false, some, List, [], ◌∷◌, ◌++◌, Bytes, ok, arith, replicate, to_bytes,
  tabulate, among,
}
use simple_network.Buffer.Circle.{Circle}
use simple_network.Buffer.Circle.Valid.{IsValid, count, contents}
use simple_network.Packet.Frames.{frame}
use simple_network.Packet.Writing.{Roomy}
use simple_network.Connection.{World, connected}
use simple_network.Kcp.{Ikcp}
use simple_network.Kcp.Socket.{Line, update}
use simple_network.Kcp.Updating.{talked}
use simple_network.Timer.{make}
use simple_network.Programs.Client.{on_time}
use simple_network.Programs.Client.Answered.{sent, on_time-answered}
use simple_network.Mgr.{Mgr}
use simple_network.Kcp.Acceptor.{Hub}
use simple_network.Programs.Client.Counting.{IsTicking}
use simple_network.Programs.Server.Starting.{main-serves}
use simple_network.Programs.Server.{Session, server, main, on_accepted}
use simple_network.Programs.Server.Serving.{answered, update-echo}

-- An object that has received the packet of the number 5, and has an acknowledgement to send.
abbrev holding : Ikcp (List Bytes)
holding = record {
  create = λ conv. [];
  wndsize = λ k sent received. k;
  nodelay = λ k nodelay interval resend nc. k;
  send = λ k bytes. k ++ (bytes ∷ []);
  input = λ k bytes. k;
  update = λ k current. (k, (1 ∷ 2 ∷ []) ∷ []);
  recv = λ k size. (frame (to_bytes 5), k);
}

abbrev empty : Circle
empty = record { block = record { mem = replicate 32 0; max_size = 4096 }; head = 0; tail = 0 }

empty-IsValid : IsValid empty
empty-IsValid = record {
  sized = record { bits = 5; power = refl; small = omega arith };
  bounded = omega arith;
  head_in = omega arith;
  tail_in = omega arith;
}

empty-Roomy : Roomy 2 512 empty
empty-Roomy = record {
  valid = empty-IsValid;
  front = refl;
  large = omega arith;
  steps = 2;
  steps_le = omega arith;
  reach = refl;
  below = omega arith;
}

abbrev world : {E : Type 0} → E → World (Line (List Bytes) E)
world app = record {
  recv_buff = empty;
  out = record {
    state = connected;
    send_buff = empty;
    env = record { kcp = some []; datagrams = []; reads = 1; is_open = true; app = app };
  };
}

abbrev serving : World (Line (List Bytes) Session)
serving = world (record { timer = make; printed = [] })

update-echo_example :
    (c : Circle) × (d : Circle) × (update holding
        (server holding 600)
        600
        9
        (λ bytes. false)
        20
        serving
      ≡ ok (record (answered holding (talked serving [] ((1 ∷ 2 ∷ []) ∷ [])) [] (to_bytes 5) c) {
        recv_buff = d;
      }))
    × (count c ≡ 0)
    × (contents d ≡ [])
unfolding to_bytes
update-echo_example =
    update-echo holding 600 9 20 (λ bytes. false) serving [] [] [] ((1 ∷ 2 ∷ []) ∷ []) (to_bytes 5)
      empty-IsValid refl refl refl (λ bytes. refl) refl refl (omega arith) empty-Roomy (omega arith)
      (omega arith) (omega arith) (omega arith)

on_time-answered_example :
    (c : Circle) × (d : Circle) × (on_time holding 600 9 false false (λ bytes. false) 40 (world 7)
      ≡ ok (sent holding (record (talked (world 7) [] ((1 ∷ 2 ∷ []) ∷ [])) { recv_buff = d }) [] c))
    × (count c ≡ 0)
    × IsValid d
    × (contents d ≡ [])
unfolding to_bytes tabulate
on_time-answered_example =
    on_time-answered holding 600 9 40 false false (λ bytes. false) (world 7) [] [] []
      ((1 ∷ 2 ∷ []) ∷ []) (frame (to_bytes 5)) (to_bytes 5 ∷ []) [] refl (omega arith) (omega arith)
      empty-IsValid refl refl (λ bytes. refl) refl (inl (omega arith)) (omega arith) (omega arith)
      refl (inl (omega arith)) empty-Roomy (omega arith) (omega arith)

abbrev idle : Mgr ℕ
idle = record { timers = 4 ∷ []; stopped = false; timer = make; state = 0 }

main-serves_example :
    (hub : Hub) × (m' : Mgr ℕ) × (w : World (Line (List Bytes) Session)) × (main 3 idle
      ≡ ok (hub, m'))
    × (among 3 m'.timers ≡ true)
    × IsTicking m'
    × (hub.convs ≡ [])
    × (hub.acceptor ≡ record { remote_endpoints = []; accepts = 2 })
    × (on_accepted holding 9 [] m' ≡ ok w)
    × (w.out.state ≡ connected)
    × (w.out.env.kcp ≡ some [])
    × (w.out.env.datagrams ≡ [])
    × (w.out.env.reads ≡ 1)
    × (w.out.env.app.printed ≡ [])
    × (w.out.env.app.timer.waiting ≡ some (1000, false))
main-serves_example = main-serves holding 9 3 [] idle refl (omega arith)
