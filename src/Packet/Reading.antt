-- ===== src/Packet/Reading.antt =====
-- A reader over a buffer that starts with a frame.
use simple_network.Base.{
  ℕ, zero, suc, ◌+◌, ◌^◌, ◌≤◌, ◌<◌, ◌≡◌, refl, sym, ap, ◌∙◌, true, [], ◌∷◌, ◌++◌, append_assoc,
  length, take, sub64, word_size, to_bytes, length-to_bytes, of_bytes-to_bytes, length-append,
  take-append, drop-append, Bytes, ok, err, read_invalid_offset, arith,
}
use simple_network.Buffer.{read_value_at}
use simple_network.Buffer.Circle.{Circle, get_count}
use simple_network.Buffer.Circle.Valid.{IsValid, count, contents, count-lt, length-contents}
use simple_network.Buffer.Circle.Reading.{read-peek, read-short}
use simple_network.Packet.{Reader, open_reader, extract}
use simple_network.Packet.Frames.{frame, length-frame}

take-within : (n : ℕ) (xs ys : Bytes) → n ≤ length xs → take n (xs ++ ys) ≡ take n xs
take-within zero xs ys h = refl
take-within (suc n) [] ys h = absurd (omega arith)
take-within (suc n) (x ∷ xs) ys h = ap (◌∷◌ x) (take-within n xs ys (omega arith))

sub_self : (n : ℕ) → sub64 n n ≡ 0
sub_self n = omega arith

-- The reader of a whole packet of `n` bytes.
abbrev pub reader_of : ℕ → Reader
reader_of n = record { head = 0; tail = word_size; size = n }

module _ {c : Circle} (body rest : Bytes) (v : IsValid c)
    (e : contents c ≡ frame body ++ rest) where
  pub frame-count : count c ≡ length body + 4 + length rest
  frame-count = omega (
    arith,
    sym (length-contents c) ∙ ap length e,
    length-append (frame body) rest,
    length-frame body,
  )

  -- A reader of a buffer that starts with a frame takes the frame's length and stands at its bytes.
  pub open_reader-frame :
      (fuel : ℕ) → 4 < fuel → open_reader fuel c ≡ ok (reader_of (length body), c)
  unfolding open_reader read_value_at
  open_reader-frame fuel f = rw (
    read-peek fuel 4 0 v f (omega (arith, frame-count)),
    e,
    append_assoc (to_bytes (length body)) body rest,
    take-append 4 (to_bytes (length body)) (body ++ rest) (length-to_bytes (length body)),
    of_bytes-to_bytes (length body) (omega (arith, frame-count, count-lt v, v.sized.small)),
  )

  -- `>>` of at most the packet's bytes returns the first of them, and leaves the reader where it was,
  -- so that the next `>>` returns the same bytes again.
  pub extract-frame :
      (fuel n : ℕ)
      → n < fuel
      → n ≤ length body
      → extract fuel c (reader_of (length body)) n ≡ ok (take n body, reader_of (length body), c)
  unfolding extract read_value_at
  extract-frame fuel n f h = rw (
    read-peek fuel n 4 v f (omega (arith, frame-count)),
    e,
    append_assoc (to_bytes (length body)) body rest,
    drop-append 4 (to_bytes (length body)) (body ++ rest) (length-to_bytes (length body)),
    take-within n body rest h,
    sub_self (get_count c),
  )

  -- Nothing keeps `>>` from reading past the packet: only the end of the buffer does.
  pub extract-end :
      (fuel n : ℕ)
      → n < 2 ^ 32
      → length body + length rest < n
      → extract (suc fuel) c (reader_of (length body)) n ≡ err read_invalid_offset
  unfolding extract read_value_at
  extract-end fuel n small h =
      rw (read-short fuel n 4 true v (omega arith) (omega (arith, frame-count)))
