-- ===== src/Connection/Forwarding.antt =====
-- `send` of a reader: the packet that has come in goes out again.
use simple_network.Base.{ℕ, ◌+◌, ◌<◌, ◌≡◌, refl, none, [], ◌++◌, length, Bytes, ok, ◌>>=◌, arith}
use simple_network.Buffer.Circle.{Circle}
use simple_network.Buffer.Circle.Valid.{IsValid, count, contents, length-contents}
use simple_network.Packet.{Writer, close_writer}
use simple_network.Packet.Frames.{frame}
use simple_network.Packet.Reading.{reader_of}
use simple_network.Packet.Writing.{Roomy, open_writer-Open}
use simple_network.Packet.Closing.{Flushable, flush-frame, close-flushed}
use simple_network.Packet.Forwarding.{insert_reader-Open}
use simple_network.Connection.{World, Hooks, with_send, send_reader, send_writer}

-- `send` of a reader that `on_read` has opened on a packet of at least one byte calls the socket's
-- `do_write` once, when the send buffer holds what it held and behind it the same packet; the receive
-- buffer is as it was, and if `do_write` leaves the send buffer alone, so does the destructor after it;
-- for a send buffer that starts its block, has room to grow and whose packet does not fill its block
-- exactly.
pub send_reader-frame :
    {E : Type 0} (h : Hooks E) {k limit : ℕ} (fuel : ℕ) (w : World E) (packet rest : Bytes)
    → IsValid w.recv_buff
    → contents w.recv_buff ≡ frame packet ++ rest
    → 0 < length packet
    → Roomy k limit w.out.send_buff
    → limit + k + length packet < fuel
    → count w.out.send_buff + 4 + length packet < limit
    → Flushable (contents w.out.send_buff) packet
    → (c : Circle) × (writer : Writer) × (send_reader h fuel w (reader_of (length packet)) ≡ (do
      w' ← h.do_write (with_send w c)
      c' ← close_writer fuel w'.out.send_buff writer
      ok (with_send w' c')))
      × Roomy k limit c
      × (contents c ≡ contents w.out.send_buff ++ frame packet)
      × (close_writer fuel c writer ≡ ok c)
unfolding send_reader send_writer
send_reader-frame h fuel w packet rest v e pos r f room fl =
    let start = contents w.out.send_buff in
    let counted = length-contents w.out.send_buff in
    let (w1, c1, e1, o1) = open_writer-Open fuel r (omega arith) (omega arith) in
    let (w2, c2, e2, o2) =
      insert_reader-Open fuel start [] packet rest o1 v e pos f (omega (arith, counted)) in
    let (c3, e3, r3, bytes) = flush-frame o2 fuel none (omega (arith, r.large, r.reach)) fl in
    (
      c3,
      w2,
      rw (e1, e2, e3) refl,
      r3,
      bytes,
      close-flushed start packet w2 fuel r3.valid bytes o2.at
          (omega (arith, r.below, r.valid.bounded)) (omega arith),
    )
