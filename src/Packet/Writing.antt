-- ===== src/Packet/Writing.antt =====
-- A packet written piece by piece into a buffer whose oldest byte is at the start of the block, as
-- the send buffers of the datagram sockets are.
use native.Mathlib.Nat.{one-le-pow}
use simple_network.Base.{
  ℕ, ◌+◌, ◌*◌, ◌%◌, ◌^◌, ◌≤◌, ◌<◌, ◌≡◌, refl, sym, ap, subst, ◌∙◌, inl, inr, List, [], ◌∷◌, ◌++◌,
  append_assoc, append-nil, length, add32, sub64, npos, open_length, to_bytes, length-to_bytes,
  length-append, Bytes, ok, arith,
}
use simple_network.Buffer.{write_value}
use simple_network.Buffer.Circle.{Circle, size, get_count, write}
use simple_network.Buffer.Circle.Valid.{
  IsValid, count, contents, count-lt, get_count-eq, length-contents,
}
use simple_network.Buffer.Circle.Regrowing.{Unstuck}
use simple_network.Buffer.Circle.Appending.{write-append_at_start}
use simple_network.Packet.{Writer, open_writer, insert, insert_all}
use simple_network.Packet.Frames.{concat, AllFull}

-- A buffer at the start of its block that may grow to `limit` bytes, in at most `k` steps.
pub record Roomy (k limit : ℕ) (c : Circle) : Type 0 where
  pub valid : IsValid c
  pub front : c.head ≡ 0
  pub large : 8 ≤ size c
  pub steps : ℕ
  pub steps_le : steps ≤ k
  pub reach : size c * 4 ^ steps ≡ limit
  pub below : limit < c.block.max_size

-- A writer in the middle of its packet: `before` are the bytes in front of the packet, `body` those
-- inserted so far.
pub record Open (k limit : ℕ) (before body : Bytes) (w : Writer) (c : Circle) : Type 0 where
  pub roomy : Roomy k limit c
  pub bytes : contents c ≡ before ++ (to_bytes open_length ++ body)
  pub at : w.head ≡ length before
  pub counted : w.size ≡ length body

pub count-contents : (c : Circle) (xs : Bytes) → contents c ≡ xs → count c ≡ length xs
count-contents c xs e = sym (length-contents c) ∙ ap length e

-- An append to such a buffer.
pub append-Roomy :
    {k limit : ℕ} {c : Circle} (fuel : ℕ) (bs : Bytes)
    → Roomy k limit c
    → 0 < length bs
    → limit + k < fuel
    → count c + length bs < limit
    → Unstuck c (length bs)
    → (c' : Circle) × (write fuel c bs npos ≡ ok c')
      × Roomy k limit c'
      × (contents c' ≡ contents c ++ bs)
append-Roomy fuel bs r pos f h u =
    let (c', e, a, front) =
      write-append_at_start r.steps fuel _ bs r.valid r.front pos (omega (arith, r.steps_le))
        (omega (arith, r.reach)) (omega (arith, r.reach, r.below)) u in
    (
      c',
      e,
      record {
        valid = a.valid;
        front = front;
        large = omega (arith, a.larger, r.large);
        steps = a.left;
        steps_le = omega (arith, a.left_le, r.steps_le);
        reach = a.reach ∙ r.reach;
        below = omega (arith, a.limit, r.below);
      },
      a.bytes,
    )

-- No size that a block of eight bytes or more grows to is five.
Unstuck-word : (c : Circle) → 8 ≤ size c → Unstuck c 4
Unstuck-word c h = inr (λ j e. absurd (omega (arith, e, scaled j)))
  where
    scaled : (j : ℕ) → size c ≤ size c * 4 ^ j
    scaled j = grind (arith, one-le-pow j 4)

-- `writer(buffer)` puts an open length behind the bytes held.
pub open_writer-Open :
    {k limit : ℕ} {c : Circle} (fuel : ℕ)
    → Roomy k limit c
    → limit + k < fuel
    → count c + 4 < limit
    → (w : Writer) × (c' : Circle) × (open_writer fuel c ≡ ok (w, c'))
      × Open k limit (contents c) [] w c'
unfolding open_writer write_value to_bytes
open_writer-Open {c = c} fuel r f h =
    let (c', e, r', bytes) =
      append-Roomy fuel (to_bytes open_length) r (omega (arith, length-to_bytes open_length)) f
        (omega (arith, length-to_bytes open_length)) (Unstuck-word c r.large) in
    (
      record { head = get_count c % 2 ^ 32; size = 0 },
      c',
      rw e,
      record {
        roomy = r';
        bytes = bytes ∙ ap (◌++◌ (contents c)) (sym (append-nil (to_bytes open_length)));
        at =
            omega (
              arith,
              get_count-eq r.valid,
              length-contents c,
              count-lt r.valid,
              r.valid.sized.small,
            );
        counted = refl;
      },
    )

-- `writer << value` puts the value behind the packet's bytes, and counts them.
pub insert-Open :
    {k limit : ℕ} {before body : Bytes} {w : Writer} {c : Circle} (fuel : ℕ) (value : Bytes)
    → Open k limit before body w c
    → 0 < length value
    → limit + k < fuel
    → length before + 4 + length body + length value < limit
    → (w' : Writer) × (c' : Circle) × (insert fuel c w value ≡ ok (w', c'))
      × Open k limit before (body ++ value) w' c'
unfolding insert write_value
insert-Open {before = before} {body = body} {w = w} {c = c} fuel value o pos f h =
    let held = count-contents c _ o.bytes in
    let held' : count c ≡ length before + 4 + length body = omega (
      arith,
      held,
      length-append before (to_bytes open_length ++ body),
      length-append (to_bytes open_length) body,
      length-to_bytes open_length,
    ) in
    let (c', e, r', bytes) =
      append-Roomy fuel value o.roomy pos f (omega (arith, held')) (inl (omega (arith, held'))) in
    let more = count-contents c' _ bytes in
    (
      record w { size = add32 w.size (sub64 (get_count c') (get_count c)) },
      c',
      rw e,
      record {
        roomy = r';
        bytes =
            bytes
            ∙ ap (λ xs. xs ++ value) o.bytes
            ∙ append_assoc before _ _
            ∙ ap (◌++◌ before) (append_assoc _ body value);
        at = o.at;
        counted = omega (
          arith,
          o.counted,
          get_count-eq o.roomy.valid,
          get_count-eq r'.valid,
          more,
          length-append (contents c) value,
          length-append body value,
          length-contents c,
          held',
          o.roomy.below,
          o.roomy.valid.bounded,
        );
      },
    )

pub insert_all-Open :
    {k limit : ℕ} (fuel : ℕ) (before body : Bytes) (w : Writer) (c : Circle) (values : List Bytes)
    → Open k limit before body w c
    → AllFull values
    → limit + k < fuel
    → length before + 4 + length body + length (concat values) < limit
    → (w' : Writer) × (c' : Circle) × (insert_all fuel c w values ≡ ok (w', c'))
      × Open k limit before (body ++ concat values) w' c'
unfolding insert_all
insert_all-Open {k} {limit} fuel before body w c [] o full f h =
    (w, c, refl, subst (λ xs. Open k limit before xs w c) (sym (append-nil body)) o)
insert_all-Open {k} {limit} fuel before body w c (value ∷ values) o full f h =
    let (w1, c1, e1, o1) =
      insert-Open fuel value o full.0 f (omega (arith, length-append value (concat values))) in
    let (w2, c2, e2, o2) =
      insert_all-Open fuel before (body ++ value) w1 c1 values o1 full.1 f
        (omega (arith, length-append value (concat values), length-append body value)) in
    (
      w2,
      c2,
      rw (e1, e2),
      subst (λ xs. Open k limit before xs w2 c2) (append_assoc body value (concat values)) o2,
    )
