-- ===== src/Packet/Nesting.antt =====
-- Packets inside packets: a writer with a parent, and a reader inside another.
use simple_network.Base.{
  ℕ, ◌+◌, ◌<◌, ◌≡◌, refl, sym, ap, ap₂, ◌∙◌, inl, Option, some, [], ◌++◌, append_assoc, append-nil,
  length, add32, open_length, word_size, to_bytes, length-to_bytes, of_bytes-to_bytes,
  length-append, take-append, drop-append, Bytes, Run, ok, ◌>>=◌, arith,
}
use simple_network.Buffer.{read_value_at, write_value}
use simple_network.Buffer.Circle.{Circle}
use simple_network.Buffer.Circle.Valid.{IsValid, count, contents, count-lt}
use simple_network.Buffer.Circle.Reading.{read-peek}
use simple_network.Packet.{Reader, Writer, open_inner_reader, open_inner_writer, insert, flush}
use simple_network.Packet.Frames.{frame, length-frame}
use simple_network.Packet.Writing.{Open, append-Roomy, insert-Open, count-contents}
use simple_network.Packet.Closing.{flush-frame, open-count}

-- A whole packet of one value inside the parent's packet: the parent that it leaves, and the buffer.
unfoldable pub nest : ℕ → Circle → Writer → Bytes → Run (Option Writer × Circle)
nest fuel c parent value = do
  (writer, c₁) ← open_inner_writer fuel c parent
  (writer', c₂) ← insert fuel c₁ writer value
  flush fuel c₂ writer' (some parent)

-- The inner writer stands behind the parent's bytes, which are in front of its packet.
open_inner_writer-Open :
    {k limit : ℕ} {before body : Bytes} {w : Writer} {c : Circle} (fuel : ℕ)
    → Open k limit before body w c
    → limit + k < fuel
    → length before + 8 + length body < limit
    → (v : Writer) × (c' : Circle) × (open_inner_writer fuel c w ≡ ok (v, c'))
      × Open k limit (contents c) [] v c'
unfolding open_inner_writer write_value to_bytes
open_inner_writer-Open {before = before} {body = body} {w = w} {c = c} fuel o f room =
    let (c', e, r', bytes) =
      append-Roomy fuel (to_bytes open_length) o.roomy (omega (arith, length-to_bytes open_length))
        f (omega (arith, length-to_bytes open_length, open-count o))
        (inl (omega (arith, open-count o))) in
    (
      record { head = add32 (add32 w.head w.size) word_size; size = 0 },
      c',
      rw e,
      record {
        roomy = r';
        bytes = bytes ∙ ap (◌++◌ (contents c)) (sym (append-nil (to_bytes open_length)));
        at = omega (
          arith,
          o.at,
          o.counted,
          open-count o,
          count-contents c (contents c) refl,
          count-lt o.roomy.valid,
          o.roomy.valid.sized.small,
        );
        counted = refl;
      },
    )

-- A packet of one value that is written inside an open packet, in a buffer that starts its block, stands
-- in it as a frame behind the parent's bytes, and the parent counts all of it, when there is room to
-- grow; the buffer still starts its block.
pub nest-Open :
    {k limit : ℕ} {before body : Bytes} {w : Writer} {c : Circle} (fuel : ℕ) (value : Bytes)
    → Open k limit before body w c
    → 0 < length value
    → limit + k < fuel
    → length before + 8 + length body + length value < limit
    → (w' : Writer) × (c' : Circle) × (nest fuel c w value ≡ ok (some w', c'))
      × Open k limit before (body ++ frame value) w' c'
unfolding nest
nest-Open {before = before} {body = body} {w = w} {c = c} fuel value o full f room =
    let inside : length (contents c) ≡ length before + 4 + length body =
      omega (arith, open-count o, count-contents c (contents c) refl) in
    let (v₁, c₁, e₁, o₁) = open_inner_writer-Open fuel o f (omega arith) in
    let (v₂, c₂, e₂, o₂) = insert-Open fuel value o₁ full f (omega (arith, inside)) in
    let (c₃, e₃, r₃, bytes) =
      flush-frame o₂ fuel (some w) (omega arith) (inl (omega (arith, inside))) in
    (
      record w { size = add32 w.size (length value + 4) },
      c₃,
      rw (e₁, e₂, e₃)
          (ap (λ n. ok (some (record w { size = n }), c₃))
            (omega (arith, o.counted, o.roomy.below, o.roomy.valid.bounded))),
      record {
        roomy = r₃;
        bytes =
            bytes
            ∙ ap (λ xs. xs ++ frame value) o.bytes
            ∙ append_assoc before (to_bytes open_length ++ body) (frame value)
            ∙ ap (◌++◌ before) (append_assoc (to_bytes open_length) body (frame value));
        at = o.at;
        counted = omega (
          arith,
          o.counted,
          length-append body (frame value),
          length-frame value,
          o.roomy.below,
          o.roomy.valid.bounded,
        );
      },
    )

-- A reader inside another that stands at a frame takes the frame's length and stands at its bytes, and
-- the outer one moves behind the frame.
pub open_inner_reader-frame :
    {c : Circle} (fuel : ℕ) (outer : Reader) (front inner rest : Bytes)
    → IsValid c
    → contents c ≡ front ++ (frame inner ++ rest)
    → outer.tail ≡ length front
    → 4 < fuel
    → open_inner_reader fuel c outer
      ≡ ok (
        record { head = outer.tail; tail = outer.tail + 4; size = length inner },
        record outer { tail = outer.tail + (length inner + 4) },
        c,
      )
unfolding open_inner_reader read_value_at
open_inner_reader-frame {c} fuel outer front inner rest v e at f =
    rw
      (
        read-peek fuel 4 outer.tail v f (omega (arith, counted, at)),
        e,
        at,
        drop-append (length front) front (frame inner ++ rest) refl,
        append_assoc (to_bytes (length inner)) inner rest,
        take-append 4 (to_bytes (length inner)) (inner ++ rest) (length-to_bytes (length inner)),
        of_bytes-to_bytes (length inner) (omega (arith, counted, count-lt v, v.sized.small)),
      )
      (ap₂
        (λ t n. ok (
          record { head = length front; tail = t; size = length inner },
          record outer { tail = n },
          c,
        ))
        (omega (arith, counted, count-lt v, v.sized.small))
        (omega (arith, counted, count-lt v, v.sized.small)))
  where
    counted : count c ≡ length front + (length inner + 4 + length rest)
    counted = omega (
      arith,
      count-contents c _ e,
      length-append front (frame inner ++ rest),
      length-append (frame inner) rest,
      length-frame inner,
    )
