-- ===== src/Packet/Closing.antt =====
-- The end of a packet: `flush` makes a frame of it, and a writer that is destroyed unflushed takes it
-- off the buffer.
use native.Mathlib.Nat.{mod-eq_of_lt}
use simple_network.Base.{
  ℕ, ◌+◌, ◌-◌, ◌*◌, ◌%◌, ◌^◌, ◌<◌, ◌≡◌, ◌≢◌, refl, ap, ap₂, ◌∙◌, ◌⊎◌, inl, inr, Option, ◌++◌,
  length, take, drop, add64, open_length, word_size, to_bytes, length-to_bytes, of_bytes-to_bytes,
  length-append, take-append, splice, Bytes, ok, arith, lt→ltb, ne→==,
}
use simple_network.Buffer.{read_value_at, write_value_at}
use simple_network.Buffer.Circle.{Circle, size, remove_from_back}
use simple_network.Buffer.Circle.Valid.{IsValid, count, contents, count-lt, get_count-eq}
use simple_network.Buffer.Circle.Moves.{remove_from_back_lem}
use simple_network.Buffer.Circle.Reading.{read-peek}
use simple_network.Buffer.Circle.Writing.{write-offset}
use simple_network.Packet.{Writer, flush, grow_parent, close_writer}
use simple_network.Packet.Frames.{frame, length-frame, splice-header, middle}
use simple_network.Packet.Writing.{Roomy, Open, count-contents}

-- A packet that would fill a block from its first byte to its last but one cannot be flushed.
abbrev pub Flushable : Bytes → Bytes → Type 0
Flushable before body = (0 < length before) ⊎ ((b : ℕ) → length body + 5 ≢ 2 ^ b)

module _ {k limit : ℕ} {before body : Bytes} {w : Writer} {c : Circle}
    (o : Open k limit before body w c) where
  pub open-count : count c ≡ length before + 4 + length body
  open-count = omega (
    arith,
    count-contents c _ o.bytes,
    length-append before (to_bytes open_length ++ body),
    length-append (to_bytes open_length) body,
    length-to_bytes open_length,
  )

  open-small : length before + length body < 2 ^ 30
  open-small = omega (arith, open-count, count-lt o.roomy.valid, o.roomy.valid.sized.small)

  -- `flush` turns the open packet into a frame, and counts it in the parent.
  pub flush-frame :
      (fuel : ℕ) (parent : Option Writer)
      → 4 < fuel
      → Flushable before body
      → (c' : Circle) × (flush fuel c w parent ≡ ok (grow_parent (length body) parent, c'))
        × Roomy k limit c'
        × (contents c' ≡ before ++ frame body)
  unfolding flush write_value_at
  flush-frame fuel parent f fl =
      let (c', e, v', bytes, same, front, max) =
        write-offset fuel w.head (to_bytes w.size) o.roomy.valid
          (omega (arith, length-to_bytes w.size))
          (omega (arith, length-to_bytes w.size, open-count, o.at))
          (omega (arith, length-to_bytes w.size, inside, open-count, o.at, count-lt o.roomy.valid))
          not_full in
      (
        c',
        rw e (ap (λ n. ok (grow_parent n parent, c')) o.counted),
        record {
          valid = v';
          front = front ∙ o.roomy.front;
          large = omega (arith, same, o.roomy.large);
          steps = o.roomy.steps;
          steps_le = o.roomy.steps_le;
          reach = ap (λ (t : ℕ). t * 4 ^ o.roomy.steps) same ∙ o.roomy.reach;
          below = omega (arith, max, o.roomy.below);
        },
        bytes
            ∙ ap₂ (λ xs n. splice xs n (to_bytes w.size)) o.bytes o.at
            ∙ splice-header before (to_bytes open_length) (to_bytes w.size) body
                (omega (arith, length-to_bytes open_length, length-to_bytes w.size))
            ∙ ap (λ n. before ++ (to_bytes n ++ body)) o.counted,
      )
    where
      start : (0 + w.head) % size c ≡ w.head
      start =
          ap (λ h. h % size c) {x = 0 + w.head} {y = w.head} (omega arith)
          ∙ mod-eq_of_lt (omega (arith, open-count, o.at, count-lt o.roomy.valid))

      inside : (c.head + w.head) % size c ≡ w.head
      inside = ap (λ h. (h + w.head) % size c) o.roomy.front ∙ start

      not_full : count c - w.head + 1 < size c
      not_full = elim fl [
        | inl more ↦ omega (arith, open-count, o.at, count-lt o.roomy.valid)
        | inr odd ↦ omega (
          arith,
          open-count,
          o.at,
          count-lt o.roomy.valid,
          odd o.roomy.valid.sized.bits,
          o.roomy.valid.sized.power,
        )
      ]

  header : take 4 (drop (length before) (contents c)) ≡ to_bytes open_length
  header =
      ap (λ xs. take 4 (drop (length before) xs)) o.bytes
      ∙ middle (length before) 4 before (to_bytes open_length) body refl
          (length-to_bytes open_length)

  -- The destructor of a writer that was not flushed, in a buffer that starts its block, leaves the buffer
  -- valid and with the bytes that it held before the writer.
  pub close-unflushed :
      (fuel : ℕ)
      → 4 < fuel
      → (c' : Circle) × (close_writer fuel c w ≡ ok c') × IsValid c' × (contents c' ≡ before)
  unfolding close_writer read_value_at
  close-unflushed fuel f = (
    remove_from_back c (add64 word_size w.size),
    rw
        (
          get_count-eq o.roomy.valid,
          lt→ltb w.head (count c) (omega (arith, open-count, o.at)),
          read-peek fuel 4 w.head o.roomy.valid f (omega (arith, open-count, o.at)),
          o.at,
          header,
          of_bytes-to_bytes open_length (omega arith),
        )
        refl,
    rw whole facts.0,
    rw whole (
        facts.1
        ∙ ap₂ take {x = count c - (4 + w.size)} {y = length before}
            (omega (arith, open-count, o.counted)) o.bytes
        ∙ take-append (length before) before _ refl),
  )
    where
      whole : add64 word_size w.size ≡ 4 + w.size
      whole = omega (arith, o.counted, open-small)

      at_end : count c ≡ c.tail
      at_end = ground (arith, o.roomy.front)

      facts :
          IsValid (remove_from_back c (4 + w.size))
          × (contents (remove_from_back c (4 + w.size))
              ≡ take (count c - (4 + w.size)) (contents c))
      facts =
          remove_from_back_lem (4 + w.size) o.roomy.valid (omega (arith, open-count, o.counted))
            (omega (arith, at_end, open-count, o.counted))

-- The destructor of a writer whose packet was flushed leaves the frame alone.
pub close-flushed :
    {c : Circle} (before body : Bytes) (w : Writer) (fuel : ℕ)
    → IsValid c
    → contents c ≡ before ++ frame body
    → w.head ≡ length before
    → length body < open_length
    → 4 < fuel
    → close_writer fuel c w ≡ ok c
unfolding close_writer read_value_at
close-flushed {c} before body w fuel v e at small f = rw (
  get_count-eq v,
  lt→ltb w.head (count c) (omega (arith, counted, at)),
  read-peek fuel 4 w.head v f (omega (arith, counted, at)),
  at,
  header,
  of_bytes-to_bytes (length body) (omega arith),
  ne→== (length body) open_length (omega arith),
)
  where
    counted : count c ≡ length before + (length body + 4)
    counted =
        omega (arith, count-contents c _ e, length-append before (frame body), length-frame body)

    header : take 4 (drop (length before) (contents c)) ≡ to_bytes (length body)
    header =
        ap (λ xs. take 4 (drop (length before) xs)) e
        ∙ middle (length before) 4 before (to_bytes (length body)) body refl
            (length-to_bytes (length body))
