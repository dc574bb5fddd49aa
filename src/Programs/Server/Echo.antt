-- ===== src/Programs/Server/Echo.antt =====
-- The server sends back what it is sent.
use simple_network.Base.{
  ℕ, ◌+◌, ◌≤◌, ◌<◌, ◌≡◌, some, [], ◌∷◌, ◌++◌, length, take, Bytes, ok, arith, length-take,
}
use simple_network.Buffer.Circle.{Circle}
use simple_network.Buffer.Circle.Valid.{IsValid, count, contents}
use simple_network.Packet.Frames.{frame}
use simple_network.Packet.Reading.{reader_of, extract-frame}
use simple_network.Packet.Writing.{Roomy}
use simple_network.Connection.{World, with_send}
use simple_network.Kcp.{Ikcp}
use simple_network.Kcp.Socket.{Line, with_kcp}
use simple_network.Programs.Sending.{int-Flushable, send_value-kcp}
use simple_network.Programs.Server.{Session, with_session, on_recv, session, sender}

-- A packet of at least one number, at the start of a valid receive buffer: the server prints the number
-- and hands kcp one message, what was still to be sent and a packet with that number, when it has a kcp
-- object, and a send buffer that starts its block and has room to grow.
pub on_recv-echo :
    {K : Type 0} (i : Ikcp K) {k limit : ℕ} (fuel : ℕ) (kcp : K) (w : World (Line K Session))
    (body rest : Bytes)
    → IsValid w.recv_buff
    → contents w.recv_buff ≡ frame body ++ rest
    → 4 ≤ length body
    → w.out.env.kcp ≡ some kcp
    → Roomy k limit w.out.send_buff
    → limit + k < fuel
    → 4 < fuel
    → count w.out.send_buff + 8 < limit
    → (c : Circle) × (on_recv i fuel w (reader_of (length body))
        ≡ ok (
            with_send
              (with_kcp
                (with_session w
                  (record w.out.env.app { printed = w.out.env.app.printed ++ (take 4 body ∷ []) }))
                (some (i.send kcp (contents w.out.send_buff ++ frame (take 4 body)))))
              c))
      × (count c ≡ 0)
unfolding on_recv sender
on_recv-echo i fuel kcp w body rest v held long there r f f' room =
    let (c, run, valid, empty) =
      send_value-kcp i session fuel kcp
        (with_session w
          (record w.out.env.app { printed = w.out.env.app.printed ++ (take 4 body ∷ []) }))
        (take 4 body) there r (omega (arith, length-take 4 body)) f
        (omega (arith, length-take 4 body))
        (int-Flushable (contents w.out.send_buff) (take 4 body)
          (length-take 4 body (omega arith))) in
    (c, rw (extract-frame body rest v held fuel 4 f' long) run, empty)
