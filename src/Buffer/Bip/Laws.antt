-- ===== src/Buffer/Bip/Laws.antt =====
-- The invariant of bip.h, the bytes held, and the operations that take bytes out of it unread.
use simple_network.Base.{
  ℕ, zero, suc, ◌+◌, ◌-◌, ◌^◌, ◌≤◌, ◌<◌, ◌≡◌, ◌≢◌, refl, sym, ap, subst, ◌∙◌, inl, inr, Option,
  none, some, [], ◌∷◌, ◌++◌, append-nil, if◌then◌else◌, ◌==◌, drop, length, add64, sub64, min,
  Bytes, slice, ok, arith, le→ltb, eq→==, ne→==, eq-or-ne, length-slice, length-append, slice-none,
  drop-slice,
}
use simple_network.Buffer.Bip.{
  Bip, size, get_count, start_or, shift, promote, take_out, remove, reset,
}

-- A region B that is open lies before A; a closed one is empty.
abbrev pub BeforeA : Option ℕ → ℕ → ℕ → Type 0
BeforeA none n a = n ≡ 0
BeforeA (some p) n a = p + n ≤ a

pub record IsValid (b : Bip) : Type 0 where
  pub bounded : b.block.max_size ≤ 2 ^ 60
  pub sized : size b ≤ b.block.max_size
  pub a_in : b.region_a_start + b.region_a_count ≤ size b
  pub b_in : BeforeA b.region_b_start b.region_b_count b.region_a_start

abbrev pub bytes_at : Bytes → Option ℕ → ℕ → Bytes
bytes_at mem none n = []
bytes_at mem (some p) n = slice mem p n

-- The bytes of region A.
abbrev pub a_bytes : Bip → Bytes
a_bytes b = slice b.block.mem b.region_a_start b.region_a_count

abbrev pub b_bytes : Bip → Bytes
b_bytes b = bytes_at b.block.mem b.region_b_start b.region_b_count

-- The bytes held: those of A, then those of B.
abbrev pub contents : Bip → Bytes
contents b = a_bytes b ++ b_bytes b

b_le : (o : Option ℕ) (n a : ℕ) → BeforeA o n a → n ≤ a
b_le none n a h = omega arith
b_le (some p) n a h = omega arith

BeforeA-le : (o : Option ℕ) (n a k : ℕ) → BeforeA o n a → a ≤ k → BeforeA o n k
BeforeA-le none n a k h le = h
BeforeA-le (some p) n a k h le = omega arith

pub length-bytes_at :
    (mem : Bytes) (o : Option ℕ) (n a : ℕ) → BeforeA o n a → length (bytes_at mem o n) ≡ n
length-bytes_at mem none n a h = omega arith
length-bytes_at mem (some p) n a h = length-slice mem p n

pub b_count_le : {b : Bip} → IsValid b → b.region_b_count ≤ b.region_a_start
b_count_le {b} v = b_le b.region_b_start b.region_b_count b.region_a_start v.b_in

pub get_count-eq : {b : Bip} → IsValid b → get_count b ≡ b.region_a_count + b.region_b_count
get_count-eq v = omega (arith, v.bounded, v.sized, v.a_in, b_count_le v)

pub length-contents :
    {b : Bip} → IsValid b → length (contents b) ≡ b.region_a_count + b.region_b_count
length-contents {b} v = omega (
  arith,
  length-append (a_bytes b) (b_bytes b),
  length-slice b.block.mem b.region_a_start b.region_a_count,
  length-bytes_at b.block.mem b.region_b_start b.region_b_count b.region_a_start v.b_in,
)

drop-append_left : (n : ℕ) (xs ys : Bytes) → n ≤ length xs → drop n (xs ++ ys) ≡ drop n xs ++ ys
drop-append_left zero xs ys h = refl
drop-append_left (suc n) [] ys h = absurd (omega arith)
drop-append_left (suc n) (x ∷ xs) ys h = drop-append_left n xs ys (omega arith)

drop-append_right : (n k : ℕ) (xs ys : Bytes) → length xs ≡ n → drop (n + k) (xs ++ ys) ≡ drop k ys
drop-append_right zero k [] ys h = ap (λ j. drop j ys) {x = 0 + k} {y = k} (omega arith)
drop-append_right zero k (x ∷ xs) ys h = absurd (omega arith)
drop-append_right (suc n) k [] ys h = absurd (omega arith)
drop-append_right (suc n) k (x ∷ xs) ys h =
    ap (λ j. drop j (x ∷ (xs ++ ys))) {x = suc n + k} {y = suc (n + k)} (omega arith)
    ∙ drop-append_right n k xs ys (omega arith)

-- Where region A starts after it has taken over B, of which `k` bytes are gone.
abbrev taken_over : Option ℕ → ℕ → ℕ → ℕ → ℕ
taken_over o n k d = if n - k == 0 then 0 else start_or (if k == 0 then o else shift o k) d

taken_over_lem :
    (mem : Bytes) (o : Option ℕ) (n k a d : ℕ)
    → BeforeA o n a
    → k ≤ n
    → a < 2 ^ 61
    → (taken_over o n k d + (n - k) ≤ a)
      × (slice mem (taken_over o n k d) (n - k) ≡ drop k (bytes_at mem o n))
taken_over_lem mem none n k a d h le small =
    let gone : n - k ≡ 0 = omega arith in
    (
      rw (eq→== (n - k) 0 gone) (omega arith),
      slice-none mem (taken_over none n k d) (n - k) gone ∙ sym (drop-none k),
    )
  where
    drop-none : (k : ℕ) → drop {A = ℕ} k [] ≡ []
    drop-none zero = refl
    drop-none (suc k) = refl
taken_over_lem mem (some p) n k a d h le small = elim (eq-or-ne (n - k) 0) [
  | inl gone ↦ (
    rw (eq→== (n - k) 0 gone) (omega arith),
    slice-none mem (taken_over (some p) n k d) (n - k) gone
        ∙ sym (drop-slice mem p k n le ∙ slice-none mem (p + k) (n - k) gone),
  )
  | inr left ↦ (
    omega (arith, moved left),
    ap (λ s. slice mem s (n - k)) (moved left) ∙ sym (drop-slice mem p k n le),
  )
]
  where
    moved : n - k ≢ 0 → taken_over (some p) n k d ≡ p + k
    moved left = elim (eq-or-ne k 0) [
      | inl z ↦ rw (ne→== (n - k) 0 left, eq→== k 0 z) (omega arith)
      | inr s ↦ rw (ne→== (n - k) 0 left, ne→== k 0 s) (omega arith)
    ]

-- Bytes that leave A, and then B.
pub take_out_lem :
    {b : Bip} (from_a from_b : ℕ)
    → IsValid b
    → from_a ≤ b.region_a_count
    → from_b ≤ b.region_b_count
    → (from_a < b.region_a_count → from_b ≡ 0)
    → IsValid (take_out b from_a from_b)
      × (contents (take_out b from_a from_b) ≡ drop (from_a + from_b) (contents b))
unfolding take_out promote
take_out_lem {b} from_a from_b v in_a in_b order = elim (eq-or-ne (b.region_a_count - from_a) 0) [
  | inl none_left ↦
      let (fits, rest) =
        taken_over_lem b.block.mem b.region_b_start b.region_b_count from_b (size b)
          (b.region_a_start + from_a)
          (BeforeA-le b.region_b_start b.region_b_count b.region_a_start (size b) v.b_in
            (omega (arith, v.a_in)))
          in_b (omega (arith, v.bounded, v.sized)) in
      rw (exact_start, exact_a, exact_b, eq→== _ _ none_left)
        (
          record { bounded = v.bounded; sized = v.sized; a_in = fits; b_in = refl },
          append-nil _
              ∙ rest
              ∙ sym (
                  drop-append_right from_a from_b (a_bytes b) (b_bytes b)
                    (omega (arith, length-slice b.block.mem b.region_a_start b.region_a_count))),
        )
  | inr some_left ↦
      let no_b : from_b ≡ 0 = order (omega arith) in
      rw (exact_start, exact_a, exact_b, ne→== _ _ some_left, eq→== _ _ no_b)
        (
          record {
            bounded = v.bounded;
            sized = v.sized;
            a_in = omega (arith, v.a_in);
            b_in =
                subst (λ n. BeforeA b.region_b_start n (b.region_a_start + from_a)) (keep no_b)
                  (BeforeA-le b.region_b_start b.region_b_count b.region_a_start
                    (b.region_a_start + from_a) v.b_in (omega arith));
          },
          ap
                (λ n.
                  slice b.block.mem (b.region_a_start + from_a) (b.region_a_count - from_a)
                  ++ bytes_at b.block.mem b.region_b_start n)
                (sym (keep no_b))
              ∙ sym (
                  ap (λ k. drop k (contents b)) {x = from_a + from_b} {y = from_a}
                    (omega (arith, no_b))
                  ∙ drop-append_left from_a (a_bytes b) (b_bytes b)
                      (omega (arith, length-slice b.block.mem b.region_a_start b.region_a_count))
                  ∙ ap (λ xs. xs ++ b_bytes b)
                      (drop-slice b.block.mem b.region_a_start from_a b.region_a_count in_a)),
        )
]
  where
    exact_start : add64 b.region_a_start from_a ≡ b.region_a_start + from_a
    exact_start = omega (arith, v.bounded, v.sized, v.a_in)

    exact_a : sub64 b.region_a_count from_a ≡ b.region_a_count - from_a
    exact_a = omega (arith, v.bounded, v.sized, v.a_in)

    exact_b : sub64 b.region_b_count from_b ≡ b.region_b_count - from_b
    exact_b = omega (arith, v.bounded, v.sized, v.a_in, b_count_le v)

    keep : from_b ≡ 0 → b.region_b_count ≡ b.region_b_count - from_b
    keep no_b = omega arith

-- `remove` of at most the bytes held drops them from the front, from A and then from B.
pub bip_remove-drop :
    {b : Bip} (n : ℕ)
    → IsValid b
    → n ≤ length (contents b)
    → (b' : Bip) × (remove b n ≡ ok b') × IsValid b' × (contents b' ≡ drop n (contents b))
unfolding remove
bip_remove-drop {b} n v h =
    let (valid, rest) =
      take_out_lem (min b.region_a_count n) (n - min b.region_a_count n) v (omega arith)
        (omega (arith, length-contents v)) (λ less. omega arith) in
    (
      take_out b (min b.region_a_count n) (n - min b.region_a_count n),
      rw (
        get_count-eq v,
        le→ltb (b.region_a_count + b.region_b_count) n (omega (arith, length-contents v)),
      ),
      valid,
      rest
          ∙ ap (λ k. drop k (contents b))
              {x = min b.region_a_count n + (n - min b.region_a_count n)} {y = n} (omega arith),
    )

-- `reset` empties the buffer.
pub bip_reset-IsValid : {b : Bip} → IsValid b → IsValid (reset b) × (contents (reset b) ≡ [])
unfolding reset
bip_reset-IsValid {b} v = (
  record { bounded = v.bounded; sized = v.sized; a_in = omega arith; b_in = refl },
  append-nil (slice b.block.mem 0 0) ∙ slice-none b.block.mem 0 0 refl,
)
