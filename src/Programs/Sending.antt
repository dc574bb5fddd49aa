-- ===== src/Programs/Sending.antt =====
-- `send_value`: a packet of one value goes behind what is to be sent, and through kcp when there is an
-- object.
use native.Mathlib.Nat.{pow-suc}
use simple_network.Base.{
  zero, suc, ◌^◌, inr, ℕ, ◌+◌, ◌<◌, ◌≡◌, ap, ◌∙◌, none, some, Option, ◌++◌, length, Bytes, Run, ok,
  ◌>>=◌, arith, le→ltb, sym, length-append,
}
use simple_network.Buffer.Circle.{Circle}
use simple_network.Buffer.Circle.Valid.{IsValid, count, contents, get_count-eq, length-contents}
use simple_network.Packet.{Writer, close_writer}
use simple_network.Packet.Frames.{frame, length-frame}
use simple_network.Packet.Writing.{Roomy, open_writer-Open, insert-Open}
use simple_network.Packet.Closing.{Flushable, flush-frame, close-flushed}
use simple_network.Connection.{World, Hooks, with_send, get_packet_writer, send_writer}
use simple_network.Kcp.{Ikcp, do_write}
use simple_network.Kcp.Sending.{do_write-one}
use simple_network.Kcp.Socket.{Line, with_kcp, socket, write_kcp}
use simple_network.Programs.{send_value}

-- Nine is not a power of two.
odd : (b : ℕ) → 9 ≡ 2 ^ b → ⊥
odd zero e = omega arith
odd (suc b) e = omega (arith, pow-suc 2 b)

-- A packet of an `int` never fills its block exactly.
pub int-Flushable : (before value : Bytes) → length value ≡ 4 → Flushable before value
int-Flushable before value int = inr (λ b e. odd b (omega (arith, e, int)))

-- What stands in the send buffer when a value's packet has been flushed into it.
pub send_value-framed :
    {E : Type 0} (h : Hooks E) {k limit : ℕ} (fuel : ℕ) (w : World E) (value : Bytes)
    → Roomy k limit w.out.send_buff
    → 0 < length value
    → limit + k < fuel
    → count w.out.send_buff + 4 + length value < limit
    → Flushable (contents w.out.send_buff) value
    → (c : Circle) × (writer : Writer) × (send_value h fuel w value ≡ (do
      w₂ ← h.do_write (with_send w c)
      c' ← close_writer fuel w₂.out.send_buff writer
      ok (with_send w₂ c')))
      × Roomy k limit c
      × (contents c ≡ contents w.out.send_buff ++ frame value)
      × (close_writer fuel c writer ≡ ok c)
unfolding send_value get_packet_writer send_writer
send_value-framed h fuel w value r full f room fl =
    let start = contents w.out.send_buff in
    let counted = length-contents w.out.send_buff in
    let (w1, c1, e1, o1) = open_writer-Open fuel r f (omega arith) in
    let (w2, c2, e2, o2) = insert-Open fuel value o1 full f (omega (arith, counted)) in
    let (c3, e3, r3, bytes) = flush-frame o2 fuel none (omega (arith, r.large, r.reach)) fl in
    (
      c3,
      w2,
      rw (e1, e2, e3),
      r3,
      bytes,
      close-flushed start value w2 fuel r3.valid bytes o2.at
          (omega (arith, r.below, r.valid.bounded)) (omega arith),
    )

-- A packet of one value goes through kcp as one message, behind what was still to be sent, and the
-- send buffer is empty again.
pub send_value-kcp :
    {K E : Type 0} (i : Ikcp K) (app : Hooks (Line K E)) {k limit : ℕ} (fuel : ℕ) (kcp : K)
    (w : World (Line K E)) (value : Bytes)
    → w.out.env.kcp ≡ some kcp
    → Roomy k limit w.out.send_buff
    → 0 < length value
    → limit + k < fuel
    → count w.out.send_buff + 4 + length value < limit
    → Flushable (contents w.out.send_buff) value
    → (c : Circle) × (send_value (socket i fuel app) fuel w value
        ≡ ok (
            with_send (with_kcp w (some (i.send kcp (contents w.out.send_buff ++ frame value)))) c))
      × IsValid c
      × (count c ≡ 0)
unfolding socket write_kcp close_writer
send_value-kcp {K} {E} i app fuel kcp w value there r full f room fl =
    let (c₁, writer, framed, r₁, bytes, _) =
      send_value-framed (socket i fuel app) fuel w value r full f room fl in
    let total : 0 < count c₁ = omega (
      arith,
      sym (length-contents c₁) ∙ ap length bytes,
      length-append (contents w.out.send_buff) (frame value),
      length-frame value,
    ) in
    let (c₂, sent, valid, empty) =
      do_write-one i fuel kcp c₁ r₁.valid r₁.front total (omega arith) in
    (
      c₂,
      framed
          ∙ ap
              (λ o.
                (do_write i fuel o c₁ >>= λ (r : Option K × Circle).
                ok (with_send (with_kcp (with_send w c₁) r.0) r.1))
                >>= finish writer)
              there
          ∙ rw (sent, get_count-eq valid, empty, le→ltb writer.head 0 (omega arith))
              (ap (λ xs. ok (with_send (with_kcp w (some (i.send kcp xs))) c₂)) bytes),
      valid,
      empty,
    )
  where
    finish : Writer → World (Line K E) → Run (World (Line K E))
    finish writer w₂ = do c' ← close_writer fuel w₂.out.send_buff writer; ok (with_send w₂ c')
