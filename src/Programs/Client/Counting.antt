-- ===== src/Programs/Client/Counting.antt =====
-- What the client does before the server has answered it.
use simple_network.Base.{
  ℕ, zero, suc, ◌+◌, ◌%◌, ◌^◌, ◌<◌, ◌≡◌, refl, ap, ◌∙◌, inr, Bool, true, false, Option, none, some,
  [], ◌∷◌, ◌++◌, to_bytes, length-to_bytes, Bytes, Run, ok, ◌>>=◌, arith, among, among-end_same,
  Bool-cases, if◌then◌else◌, inl,
}
use simple_network.Buffer.Circle.{Circle}
use simple_network.Buffer.Circle.Valid.{count, contents}
use simple_network.Packet.{Writer, close_writer}
use simple_network.Packet.Frames.{frame}
use simple_network.Packet.Writing.{Roomy}
use simple_network.Connection.{
  State, World, connected, disconnected, with_send, is_connected, is_disconnected, on_close,
  start_connecting, become_connected,
}
use simple_network.Kcp.{Ikcp, do_write}
use simple_network.Kcp.Socket.{Line, with_line, with_kcp, update, update_kcp, socket, write_kcp}
use simple_network.Kcp.Connector
use simple_network.Kcp.Socket
use simple_network.Kcp.Socket.{make_line}
use simple_network.Mgr.{Mgr}
use simple_network.Buffer
use simple_network.Mgr
use simple_network.Timer
use simple_network.Connection
use simple_network.Kcp.Connector.{connect}
use simple_network.Programs.Sending.{int-Flushable, send_value-framed}
use simple_network.Programs.Client.{client, send_counter, on_time, main}

-- At each time, a connected client that has no kcp object yet puts its counter, as a packet, behind
-- what it has to send, and counts on, when the send buffer starts its block and has room to grow; fuel
-- above what it may grow to is enough.
pub on_time-counts :
    {K : Type 0} (i : Ikcp K) {k limit : ℕ} (fuel rounds current : ℕ) (refused error : Bool)
    (lost : Bytes → Bool) (w : World (Line K ℕ))
    → w.out.state ≡ connected
    → w.out.env.kcp ≡ none
    → Roomy k limit w.out.send_buff
    → limit + k < fuel
    → count w.out.send_buff + 8 < limit
    → (c : Circle) × (on_time i fuel rounds refused error lost current w
        ≡ ok (
            with_send
              (with_line w (record w.out.env { kcp = none; app = (w.out.env.app + 1) % 2 ^ 32 }))
              c))
      × Roomy k limit c
      × (contents c ≡ contents w.out.send_buff ++ frame (to_bytes w.out.env.app))
unfolding on_time send_counter Connector.on_time update update_kcp client socket write_kcp do_write
on_time-counts i zero rounds current refused error lost w up no_kcp r f room = absurd (omega arith)
on_time-counts {K} i (suc fuel) rounds current refused error lost w up no_kcp r f room =
    let (c, writer, framed, r', bytes, done) =
      send_value-framed (client i (suc fuel)) (suc fuel) counted (to_bytes w.out.env.app) r
        (omega (arith, length-to_bytes w.out.env.app)) f
        (omega (arith, length-to_bytes w.out.env.app))
        (int-Flushable (contents w.out.send_buff) (to_bytes w.out.env.app)
          (length-to_bytes w.out.env.app)) in
    (
      c,
      ap
            (λ o. update_kcp i (client i (suc fuel)) (suc fuel) rounds lost current o w >>= λ w'.
              next w' w'.out.state)
            no_kcp
          ∙ ap (next w) up
          ∙ framed
          ∙ ap
              (λ o.
                (do_write i (suc fuel) o c >>= λ (r : Option K × Circle).
                ok (with_send (with_kcp (with_send counted c) r.0) r.1))
                >>= finish writer)
              no_kcp
          ∙ rw done,
      r',
      bytes,
    )
  where
    counted : World (Line K ℕ)
    counted = with_line w (record w.out.env { app = (w.out.env.app + 1) % 2 ^ 32 })

    next : World (Line K ℕ) → State → Run (World (Line K ℕ))
    next w' s =
        if is_disconnected s
        then connect i (client i (suc fuel)) refused error w'
        else if is_connected s
        then send_counter i (suc fuel) w'
        else ok w'

    finish : Writer → World (Line K ℕ) → Run (World (Line K ℕ))
    finish writer w₂ = do c' ← close_writer (suc fuel) w₂.out.send_buff writer; ok (with_send w₂ c')

-- The manager's timer of 20 milliseconds.
abbrev pub IsTicking : {S : Type 0} → Mgr S → Type 0
IsTicking m = (m.timer.waiting ≡ some (20, true)) × (m.stopped ≡ false)

-- A socket that has said hello.
abbrev pub talking : {K : Type 0} → Line K ℕ
talking = record { kcp = none; datagrams = to_bytes 0 ∷ []; reads = 1; is_open = true; app = 0 }

-- With an io_service that has not been stopped, when asio connects and sends, `main` ends with the
-- manager running and the connector's timer in its set, and with a connection to the server that is
-- CONNECTED, has sent four zero bytes and nothing else, waits for one datagram and has no kcp object.
pub main-starts :
    {K S : Type 0} (i : Ikcp K) (fuel self : ℕ) (refused error : ℕ → Bool) (m : Mgr S)
    → m.stopped ≡ false
    → 0 < fuel
    → refused 1 ≡ false
    → error 1 ≡ false
    → (k : Connector.Connector K ℕ) × (m' : Mgr S) × (main i fuel refused error self m ≡ ok (k, m'))
      × (among self m'.timers ≡ true)
      × IsTicking m'
      × (k.remote_endpoint ≡ 1)
      × (k.world.out.state ≡ connected)
      × (k.world.out.env ≡ talking)
unfolding main Connector.make Connector.connect_to connect Connection.make make_line Socket.close
    on_close start_connecting become_connected client socket Socket.open_line Socket.do_read
    write_kcp do_write Mgr.add Mgr.run Mgr.start Mgr.delay_own Timer.delay Timer.do_time
    Timer.expires_from_now
main-starts i zero self refused error m runs pos open_there sent = absurd (omega arith)
main-starts i (suc fuel) self refused error m runs pos open_there sent = (
  record {
    remote_endpoint = 1;
    world = record {
      recv_buff = Buffer.make;
      out = record { state = connected; send_buff = Buffer.make; env = talking };
    };
  },
  Mgr.run (Mgr.add self m),
  rw (open_there, sent) refl,
  elim (Bool-cases (among self m.timers)) [
    | inl old ↦ rw old old
    | inr new ↦ rw new (among-end_same self m.timers)
  ],
  (refl, elim (Bool-cases (among self m.timers)) [ inl old ↦ rw old runs | inr new ↦ rw new runs ]),
  refl,
  refl,
  refl,
)
