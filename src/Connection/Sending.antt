-- ===== src/Connection/Sending.antt =====
-- A packet on its way out: `get_packet_writer`, some `<<`, and `send`.
use simple_network.Base.{
  ℕ, ◌+◌, ◌<◌, ◌≡◌, true, none, List, [], ◌++◌, length, Bytes, Run, ◌>>=◌, arith,
}
use simple_network.Buffer.Circle.{Circle}
use simple_network.Buffer.Circle.Valid.{count, contents, length-contents}
use simple_network.Packet.{insert_all}
use simple_network.Packet.Frames.{frame, concat, AllFull}
use simple_network.Packet.Writing.{Roomy, open_writer-Open, insert_all-Open}
use simple_network.Packet.Closing.{Flushable, flush-frame}
use simple_network.Connection.{World, Hooks, with_send, get_packet_writer, send_writer}

-- What the callers of `get_packet_writer` do: they insert values, and send.
unfoldable pub send_values : {E : Type 0} → Hooks E → ℕ → World E → List Bytes → Run (World E)
send_values h fuel w values = do
  (writer, w') ← get_packet_writer fuel w
  (writer', c) ← insert_all fuel w'.out.send_buff writer values
  send_writer h fuel true (with_send w' c) writer'

-- The socket's `do_write` is called once, when the send buffer holds what it held and behind it one
-- frame of the values, and nothing else has changed.
pub send_values-frame :
    {E : Type 0} (h : Hooks E) {k limit : ℕ} (fuel : ℕ) (w : World E) (values : List Bytes)
    → Roomy k limit w.out.send_buff
    → AllFull values
    → limit + k < fuel
    → count w.out.send_buff + 4 + length (concat values) < limit
    → Flushable (contents w.out.send_buff) (concat values)
    → (c : Circle) × (send_values h fuel w values ≡ h.do_write (with_send w c))
      × Roomy k limit c
      × (contents c ≡ contents w.out.send_buff ++ frame (concat values))
unfolding send_values get_packet_writer send_writer
send_values-frame h fuel w values r full f room fl =
    let start = contents w.out.send_buff in
    let counted = length-contents w.out.send_buff in
    let (w1, c1, e1, o1) = open_writer-Open fuel r f (omega arith) in
    let (w2, c2, e2, o2) =
      insert_all-Open fuel start [] w1 c1 values o1 full f (omega (arith, counted)) in
    let (c3, e3, r3, bytes) = flush-frame o2 fuel none (omega (arith, r.large, r.reach)) fl in
    (c3, rw (e1, e2, e3), r3, bytes)
