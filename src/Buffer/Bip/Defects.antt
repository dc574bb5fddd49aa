-- ===== src/Buffer/Bip/Defects.antt =====
-- Where bip.h does not do what the byte sequence it holds asks for: reads and writes at an offset, and
-- the space it reports.
use simple_network.Base.{
  ℕ, suc, ◌+◌, ◌-◌, ◌≤◌, ◌<◌, ◌≡◌, ap, ◌∙◌, inl, inr, some, if◌then◌else◌, ltb, ◌==◌, true, false,
  take, length, length-take, subst, splice, min, npos, add64, sub64, max, Bytes, ok, err, arith,
  store-ok, lt→ltb, le→ltb, eq→==, ne→==, eq-or-ne, length-splice, write_no_space,
}
use simple_network.Buffer.Bip.{
  Bip, size, is_set, get_a_space, get_b_space, expand, get_continguious_space, put_b, write_step,
  write_loop, write, read,
}
use simple_network.Buffer.Bip.Reading.{load-back}
use simple_network.Buffer.Bip.Laws.{IsValid, BeforeA, b_bytes, b_count_le, get_count-eq}

-- `read` at an offset past region A, of bytes that are held, returns the first bytes of region B
-- whatever the offset is.
pub bip_read-past_a :
    {b : Bip} (n offset : ℕ)
    → IsValid b
    → b.region_a_count < offset
    → offset + n ≤ b.region_a_count + b.region_b_count
    → read b n offset ≡ ok (take n (b_bytes b), b)
unfolding read
bip_read-past_a {b} n offset v past held = rw (
  ne→== offset npos (omega (arith, v.bounded, v.sized, v.a_in, b_count_le v)),
  get_count-eq v,
  exact,
  le→ltb (b.region_a_count + b.region_b_count) (offset + n) held,
  skipped,
  whole,
  load-back b.block.mem b.region_b_start b.region_b_count n b.region_a_start v.b_in
      (omega (arith, v.a_in)) (omega arith),
)
  where
    exact : add64 offset n ≡ offset + n
    exact = omega (arith, v.bounded, v.sized, v.a_in, b_count_le v)

    whole : n - 0 ≡ n
    whole = omega arith

    skipped : (if b.region_a_count == 0 then true else ltb b.region_a_count offset) ≡ true
    skipped = elim (eq-or-ne b.region_a_count 0) [
      | inl z ↦ rw (eq→== b.region_a_count 0 z)
      | inr some_in_a ↦ rw (ne→== b.region_a_count 0 some_in_a, lt→ltb b.region_a_count offset past)
    ]

-- `expand` at the largest size throws.
expand-full : (b : Bip) → size b ≡ b.block.max_size → expand b ≡ err write_no_space
unfolding expand
expand-full b full = rw (eq→== (size b) b.block.max_size full)

-- `get_continguious_space` at the largest size, with region A at the end of the block and region B empty,
-- throws, although there is room before A.
pub get_continguious_space-room_before :
    {b : Bip} (fuel : ℕ)
    → IsValid b
    → size b ≡ b.block.max_size
    → b.region_a_start + b.region_a_count ≡ size b
    → 0 < b.region_a_start
    → b.region_b_count ≡ 0
    → get_continguious_space (suc fuel) b ≡ err write_no_space
unfolding get_continguious_space expand
get_continguious_space-room_before {b} fuel v full at_end room none_in_b = rw (
  eq→== b.region_b_count 0 none_in_b,
  lt→ltb (get_a_space b) b.region_a_start (omega (arith, full_a)),
  eq→== (get_a_space b) 0 full_a,
  eq→== (size b) b.block.max_size full,
)
  where
    full_a : get_a_space b ≡ 0
    full_a = omega (arith, v.bounded, v.sized, v.a_in)

-- What is asked of an open region B, and it has no room for.
put_b-short :
    (b : Bip) (bs : Bytes) (offset remain_count : ℕ)
    → get_b_space b
      < max b.region_b_count (add64 (sub64 offset b.region_a_count) remain_count) - b.region_b_count
    → put_b b bs offset remain_count ≡ ok (false, b)
unfolding put_b
put_b-short b bs offset remain_count short = rw (lt→ltb _ _ short)

-- `write` over the end of region A and the start of an open region B, of bytes that are held, of fewer
-- in B than in A, throws at the largest size.
pub bip_write-over_both :
    {b : Bip} (fuel : ℕ) (bs : Bytes) (offset p : ℕ)
    → IsValid b
    → size b ≡ b.block.max_size
    → b.region_b_start ≡ some p
    → offset < b.region_a_count
    → b.region_a_count < offset + length bs
    → offset + length bs ≤ b.region_a_count + b.region_b_count
    → length bs < (b.region_a_count - offset) + (b.region_a_count - offset)
    → write (suc fuel) b bs offset ≡ err write_no_space
unfolding write write_loop write_step put_b expand
bip_write-over_both {b} fuel bs offset p v full opened inside over held fewer = rw (
  ne→== offset npos (omega (arith, v.bounded, v.sized, v.a_in, b_count_le v)),
  get_count-eq v,
  exact,
  le→ltb (b.region_a_count + b.region_b_count) (offset + length bs) held,
  lt→ltb offset b.region_a_count inside,
  least,
  exact_at,
  store-ok b.block.mem (b.region_a_start + offset) first_bytes
      (omega (arith, v.a_in, first_length)),
  ne→== (length bs - (b.region_a_count - offset)) 0 (omega arith),
  set,
  put_b-short after_a bs offset (length bs - (b.region_a_count - offset)) short,
  expand-full after_a (length-splice b.block.mem (b.region_a_start + offset) first_bytes ∙ full),
)
  where
    first_bytes : Bytes
    first_bytes = take (b.region_a_count - offset) bs

    first_length : length first_bytes ≡ b.region_a_count - offset
    first_length = length-take (b.region_a_count - offset) bs (omega arith)

    after_a : Bip
    after_a = record b {
      block = record b.block { mem = splice b.block.mem (b.region_a_start + offset) first_bytes };
    }

    least : min (b.region_a_count - offset) (length bs) ≡ b.region_a_count - offset
    least = omega arith

    exact_at : add64 b.region_a_start offset ≡ b.region_a_start + offset
    exact_at = omega (arith, v.bounded, v.sized, v.a_in)

    set : is_set b.region_b_start ≡ true
    set = ap is_set opened

    space : get_b_space b ≤ b.region_a_start
    space = rw opened (
        omega (
          arith,
          v.bounded,
          v.sized,
          v.a_in,
          subst (λ o. BeforeA o b.region_b_count b.region_a_start) opened v.b_in,
        ))

    short :
        get_b_space b
        < max b.region_b_count
            (add64 (sub64 offset b.region_a_count) (length bs - (b.region_a_count - offset)))
          - b.region_b_count
    short = omega (arith, space, v.bounded, v.sized, v.a_in, b_count_le v)

    exact : add64 offset (length bs) ≡ offset + length bs
    exact = omega (arith, v.bounded, v.sized, v.a_in, b_count_le v)
