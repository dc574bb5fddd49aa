-- ===== src/Buffer/Bip/Writing.antt =====
-- `expand` and `write` at the end of bip.h.
use simple_network.Base.{
  ℕ, suc, ◌+◌, ◌-◌, ◌≤◌, ◌<◌, ◌≡◌, refl, sym, ap, ap₂, subst, ◌∙◌, inl, inr, true, Bool, Option,
  none, some, ◌++◌, append-nil, append_assoc, if◌then◌else◌, ltb, length, npos, add64, sub64, min,
  max, Bytes, Run, slice, splice, ok, arith, store-ok, lt→ltb, le→ltb, eq→==, ne→==, lt-or-le,
  length-splice, slice-add, slice-splice_same, slice-splice_other, take-whole,
}
use simple_network.Buffer.Bip.{
  Bip, size, is_set, get_a_space, put_a, put_b, write_step, write_loop, write,
}
use simple_network.Buffer.Bip.Laws.{BeforeA, IsValid, bytes_at, a_bytes, contents, get_count-eq}

-- How many bytes a write at the end has room for without growing.
abbrev pub room_at : Option ℕ → ℕ → ℕ → ℕ → ℕ
room_at none count start behind = if ltb start behind then behind else start
room_at (some p) count start behind = start - p - count

abbrev pub room : Bip → ℕ
room b =
    room_at b.region_b_start b.region_b_count b.region_a_start
      (size b - b.region_a_start - b.region_a_count)

-- What a write of some bytes at the end leaves.
abbrev Appended : Bip → Bytes → Run (Bool × Bip) → Type 0
Appended b bs r = (b' : Bip) × (r ≡ ok (true, b')) × IsValid b' × (contents b' ≡ contents b ++ bs)

sub_same : (n k : ℕ) → n ≡ k → n - k ≡ 0
sub_same n k e = omega arith

room-behind :
    (start behind : ℕ) → start < behind → (if ltb start behind then behind else start) ≡ behind
room-behind start behind h = rw (lt→ltb start behind h)

room-before :
    (start behind : ℕ) → behind ≤ start → (if ltb start behind then behind else start) ≡ start
room-before start behind h = rw (le→ltb start behind h)

a_space : {b : Bip} → IsValid b → get_a_space b ≡ size b - b.region_a_start - b.region_a_count
a_space v = omega (arith, v.bounded, v.sized, v.a_in)

module _ {b : Bip} (bs : Bytes) (v : IsValid b) (some_bytes : 0 < length bs) where
  -- Behind the bytes of an open region B.
  put_b_lem :
      (p : ℕ)
      → b.region_b_start ≡ some p
      → length bs ≤ b.region_a_start - p - b.region_b_count
      → Appended b bs (put_b b bs (b.region_a_count + b.region_b_count) (length bs))
  unfolding put_b
  put_b_lem p e fits = (
    record {
      block = record b.block { mem = mem' };
      region_a_start = b.region_a_start;
      region_a_count = b.region_a_count;
      region_b_start = some p;
      region_b_count = b.region_b_count + length bs;
    },
    rw (
      e,
      exact_b,
      eq→== (length bs) (length bs) refl,
      total,
      larger,
      room_eq,
      le→ltb (b.region_a_start - p - b.region_b_count)
          (b.region_b_count + length bs - b.region_b_count) (omega arith),
      exact_place,
      sub_same (length bs) (length bs) refl,
      store-ok b.block.mem (p + b.region_b_count) bs (omega (arith, v.a_in)),
    ),
    record {
      bounded = v.bounded;
      sized = rw (length-splice b.block.mem (p + b.region_b_count) bs) v.sized;
      a_in = rw (length-splice b.block.mem (p + b.region_b_count) bs) v.a_in;
      b_in = omega arith;
    },
    ap₂ ◌++◌
          (slice-splice_other b.block.mem b.region_a_start b.region_a_count (p + b.region_b_count)
            bs v.a_in (inr (omega arith)))
          (slice-add mem' p b.region_b_count (length bs)
            ∙ ap₂ ◌++◌
                (slice-splice_other b.block.mem p b.region_b_count (p + b.region_b_count) bs
                  (omega (arith, v.a_in)) (inl (omega arith)))
                (slice-splice_same b.block.mem (p + b.region_b_count) bs (omega (arith, v.a_in))))
        ∙ sym (append_assoc (a_bytes b) (slice b.block.mem p b.region_b_count) bs)
        ∙ ap (λ o. (a_bytes b ++ bytes_at b.block.mem o b.region_b_count) ++ bs) (sym e),
  )
    where
      before : p + b.region_b_count ≤ b.region_a_start
      before = subst (λ o. BeforeA o b.region_b_count b.region_a_start) e v.b_in

      mem' : Bytes
      mem' = splice b.block.mem (p + b.region_b_count) bs

      exact_b : sub64 (b.region_a_count + b.region_b_count) b.region_a_count ≡ b.region_b_count
      exact_b = omega (arith, v.bounded, v.sized, v.a_in, before)

      total : add64 b.region_b_count (length bs) ≡ b.region_b_count + length bs
      total = omega (arith, v.bounded, v.sized, v.a_in, before)

      larger : max b.region_b_count (b.region_b_count + length bs) ≡ b.region_b_count + length bs
      larger = omega arith

      room_eq :
          sub64 (sub64 b.region_a_start p) b.region_b_count
          ≡ b.region_a_start - p - b.region_b_count
      room_eq = omega (arith, v.bounded, v.sized, v.a_in, before)

      exact_place : add64 p b.region_b_count ≡ p + b.region_b_count
      exact_place = omega (arith, v.bounded, v.sized, v.a_in, before)

  -- Behind region A, where B is closed.
  put_behind_lem :
      b.region_b_start ≡ none
      → b.region_a_start < size b - b.region_a_start - b.region_a_count
      → length bs ≤ size b - b.region_a_start - b.region_a_count
      → Appended b bs (put_a b bs (length bs))
  unfolding put_a
  put_behind_lem e larger fits = (
    record b {
      block = record b.block { mem = mem' };
      region_a_count = b.region_a_count + length bs;
    },
    rw (
      a_space v,
      lt→ltb b.region_a_start (size b - b.region_a_start - b.region_a_count) larger,
      le→ltb (size b - b.region_a_start - b.region_a_count) (length bs) fits,
      sub_same (length bs) (length bs) refl,
      exact_place,
      store-ok b.block.mem (b.region_a_start + b.region_a_count) bs (omega (arith, v.a_in)),
      total,
    ),
    record {
      bounded = v.bounded;
      sized = rw (length-splice b.block.mem (b.region_a_start + b.region_a_count) bs) v.sized;
      a_in =
          omega (arith, v.a_in, length-splice b.block.mem (b.region_a_start + b.region_a_count) bs);
      b_in = v.b_in;
    },
    ap₂ ◌++◌
          (slice-add mem' b.region_a_start b.region_a_count (length bs)
            ∙ ap₂ ◌++◌
                (slice-splice_other b.block.mem b.region_a_start b.region_a_count
                  (b.region_a_start + b.region_a_count) bs v.a_in (inl (omega arith)))
                (slice-splice_same b.block.mem (b.region_a_start + b.region_a_count) bs
                  (omega (arith, v.a_in))))
          (ap (λ o. bytes_at mem' o b.region_b_count) e)
        ∙ append-nil (a_bytes b ++ bs)
        ∙ ap (λ xs. xs ++ bs) (sym (append-nil (a_bytes b)))
        ∙ ap (λ o. (a_bytes b ++ bytes_at b.block.mem o b.region_b_count) ++ bs) (sym e),
  )
    where
      mem' : Bytes
      mem' = splice b.block.mem (b.region_a_start + b.region_a_count) bs

      exact_place : add64 b.region_a_start b.region_a_count ≡ b.region_a_start + b.region_a_count
      exact_place = omega (arith, v.bounded, v.sized, v.a_in)

      total : add64 b.region_a_count (length bs) ≡ b.region_a_count + length bs
      total = omega (arith, v.bounded, v.sized, v.a_in)

  -- In front of region A.
  put_before_lem :
      b.region_b_start ≡ none
      → size b - b.region_a_start - b.region_a_count ≤ b.region_a_start
      → length bs ≤ b.region_a_start
      → Appended b bs (put_a b bs (length bs))
  unfolding put_a
  put_before_lem e larger fits = (
    record b {
      block = record b.block { mem = splice b.block.mem 0 bs };
      region_b_start = some 0;
      region_b_count = length bs;
    },
    rw (
      a_space v,
      le→ltb b.region_a_start (size b - b.region_a_start - b.region_a_count) larger,
      le→ltb b.region_a_start (length bs) fits,
      take-whole (length bs) bs refl,
      store-ok b.block.mem 0 bs (omega (arith, v.a_in)),
      total,
    ),
    record {
      bounded = v.bounded;
      sized = rw (length-splice b.block.mem 0 bs) v.sized;
      a_in = rw (length-splice b.block.mem 0 bs) v.a_in;
      b_in = omega arith;
    },
    ap₂ ◌++◌
          (slice-splice_other b.block.mem b.region_a_start b.region_a_count 0 bs v.a_in
            (inr (omega arith)))
          (slice-splice_same b.block.mem 0 bs (omega (arith, v.a_in)))
        ∙ ap (λ xs. xs ++ bs) (sym (append-nil (a_bytes b)))
        ∙ ap (λ o. (a_bytes b ++ bytes_at b.block.mem o b.region_b_count) ++ bs) (sym e),
  )
    where
      empty_b : b.region_b_count ≡ 0
      empty_b = subst (λ o. BeforeA o b.region_b_count b.region_a_start) e v.b_in

      total : add64 b.region_b_count (length bs) ≡ length bs
      total = omega (arith, empty_b, v.bounded, v.sized, v.a_in)

  put_lem :
      (o : Option ℕ)
      → b.region_b_start ≡ o
      → length bs
        ≤ room_at o b.region_b_count b.region_a_start (size b - b.region_a_start - b.region_a_count)
      → Appended b bs (
          if is_set o
          then put_b b bs (b.region_a_count + b.region_b_count) (length bs)
          else put_a b bs (length bs))
  put_lem (some p) e fits = put_b_lem p e fits
  put_lem none e fits =
      elim (lt-or-le b.region_a_start (size b - b.region_a_start - b.region_a_count)) [
        | inl larger ↦ put_behind_lem e larger (
            omega (
              arith,
              fits,
              room-behind b.region_a_start (size b - b.region_a_start - b.region_a_count) larger,
            ))
        | inr smaller ↦ put_before_lem e smaller (
            omega (
              arith,
              fits,
              room-before b.region_a_start (size b - b.region_a_start - b.region_a_count) smaller,
            ))
      ]

-- `write` at -1 of bytes that there is room for appends them: to an open region B, and otherwise behind
-- A or, where there is more room, in front of it.
pub bip_write-fits :
    {b : Bip} (fuel : ℕ) (bs : Bytes)
    → IsValid b
    → 0 < length bs
    → length bs ≤ room b
    → (b' : Bip) × (write (suc fuel) b bs npos ≡ ok b')
      × IsValid b'
      × (contents b' ≡ contents b ++ bs)
unfolding write write_loop write_step
bip_write-fits {b} fuel bs v some_bytes fits =
    let (b', run, valid, held) = put_lem bs v some_bytes b.region_b_start refl fits in
    (
      b',
      rw (
        get_count-eq v,
        le→ltb (b.region_a_count + b.region_b_count) b.region_a_count (omega arith),
        none_in_a,
        nothing_more,
        ne→== (length bs) 0 (omega arith),
        run,
      ),
      valid,
      held,
    )
  where
    none_in_a : min (b.region_a_count - (b.region_a_count + b.region_b_count)) (length bs) ≡ 0
    none_in_a = omega arith

    nothing_more : length bs - 0 ≡ length bs
    nothing_more = omega arith
