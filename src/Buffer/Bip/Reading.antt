-- ===== src/Buffer/Bip/Reading.antt =====
-- `bip::read`: the bytes of region A, and then of B.
use simple_network.Base.{
  ℕ, zero, suc, ◌+◌, ◌-◌, ◌≤◌, ◌≡◌, refl, sym, ap, ap₂, ◌∙◌, inl, inr, Option, none, some, [], ◌∷◌,
  ◌++◌, append-nil, if◌then◌else◌, ◌==◌, take, drop, length, npos, add64, min, Bytes, slice, load,
  ok, arith, load-ok, le→ltb, eq→==, ne→==, eq-or-ne, lt-or-le, length-slice, take-slice,
}
use simple_network.Buffer.Bip.{Bip, load_at, take_out, read}
use simple_network.Buffer.Bip.Laws.{
  IsValid, BeforeA, bytes_at, a_bytes, b_bytes, contents, b_count_le, get_count-eq, length-contents,
  take_out_lem,
}

take-append_left : (n : ℕ) (xs ys : Bytes) → n ≤ length xs → take n (xs ++ ys) ≡ take n xs
take-append_left zero xs ys h = refl
take-append_left (suc n) [] ys h = absurd (omega arith)
take-append_left (suc n) (x ∷ xs) ys h = ap (◌∷◌ x) (take-append_left n xs ys (omega arith))

take-append_right :
    (n k : ℕ) (xs ys : Bytes) → length xs ≡ n → take (n + k) (xs ++ ys) ≡ take n xs ++ take k ys
take-append_right zero k [] ys h = ap (λ j. take j ys) {x = 0 + k} {y = k} (omega arith)
take-append_right zero k (x ∷ xs) ys h = absurd (omega arith)
take-append_right (suc n) k [] ys h = absurd (omega arith)
take-append_right (suc n) k (x ∷ xs) ys h =
    ap (λ j. take j (x ∷ (xs ++ ys))) {x = suc n + k} {y = suc (n + k)} (omega arith)
    ∙ ap (◌∷◌ x) (take-append_right n k xs ys (omega arith))

-- The part of a read that lies in B.
pub load-back :
    (mem : Bytes) (o : Option ℕ) (n k a : ℕ)
    → BeforeA o n a
    → a ≤ length mem
    → k ≤ n
    → (if k == 0 then ok [] else load_at mem o k) ≡ ok (take k (bytes_at mem o n))
load-back mem none n k a h fits le =
    let z : k ≡ 0 = omega arith in rw (eq→== k 0 z) (ap (λ j. ok (take {A = ℕ} j [])) (sym z))
load-back mem (some p) n k a h fits le = elim (eq-or-ne k 0) [
  | inl z ↦ rw (eq→== k 0 z) (ap (λ j. ok (take j (slice mem p n))) (sym z))
  | inr more ↦
      rw (ne→== k 0 more) (load-ok mem p k (omega arith) ∙ ap ok (sym (take-slice mem p k n le)))
]

module _ {b : Bip} (n : ℕ) (v : IsValid b) (h : n ≤ length (contents b)) where
  -- How many of the bytes lie in A.
  abbrev in_a : ℕ
  in_a = min b.region_a_count n

  take-parts : take in_a (a_bytes b) ++ take (n - in_a) (b_bytes b) ≡ take n (contents b)
  take-parts = elim (lt-or-le b.region_a_count n) [
    | inl both ↦
        ap₂ (λ i j. take i (a_bytes b) ++ take j (b_bytes b)) {x = in_a} {y = b.region_a_count}
          {u = n - in_a} {v = n - b.region_a_count} (omega arith) (omega arith)
        ∙ sym (
            ap (λ k. take k (contents b)) {x = n} {y = b.region_a_count + (n - b.region_a_count)}
              (omega arith)
            ∙ take-append_right b.region_a_count (n - b.region_a_count) (a_bytes b) (b_bytes b)
                (length-slice b.block.mem b.region_a_start b.region_a_count))
    | inr only ↦
        ap₂ (λ i j. take i (a_bytes b) ++ take j (b_bytes b)) {x = in_a} {y = n} {u = n - in_a}
          {v = 0} (omega arith) (omega arith)
        ∙ append-nil (take n (a_bytes b))
        ∙ sym (
            take-append_left n (a_bytes b) (b_bytes b)
              (omega (arith, length-slice b.block.mem b.region_a_start b.region_a_count)))
  ]

  load-front : load b.block.mem b.region_a_start in_a ≡ ok (take in_a (a_bytes b))
  load-front =
      load-ok b.block.mem b.region_a_start in_a (omega (arith, v.a_in))
      ∙ ap ok (sym (take-slice b.block.mem b.region_a_start in_a b.region_a_count (omega arith)))

  load-rest :
      (if n - in_a == 0 then ok [] else load_at b.block.mem b.region_b_start (n - in_a))
      ≡ ok (take (n - in_a) (b_bytes b))
  load-rest =
      load-back b.block.mem b.region_b_start b.region_b_count (n - in_a) b.region_a_start v.b_in
        (omega (arith, v.a_in)) (omega (arith, length-contents v))

  -- The bytes read from the start, and the object when they are taken out.
  read_front-eq : read b n npos ≡ ok (take n (contents b), take_out b in_a (n - in_a))
  unfolding read
  read_front-eq = elim (eq-or-ne b.region_a_count 0) [
    | inl z ↦
        let none_in_a : in_a ≡ 0 = omega (arith, z) in
        rw
          (
            get_count-eq v,
            le→ltb (b.region_a_count + b.region_b_count) (add64 0 n)
                (omega (arith, length-contents v, v.bounded, v.sized, v.a_in, b_count_le v)),
            eq→== b.region_a_count 0 z,
            load-back b.block.mem b.region_b_start b.region_b_count (n - 0) b.region_a_start v.b_in
                (omega (arith, v.a_in)) (omega (arith, length-contents v)),
          )
          (ap₂ (λ bytes b'. ok (bytes, b'))
            (ap (λ k. take k (a_bytes b) ++ take (n - k) (b_bytes b)) (sym none_in_a) ∙ take-parts)
            (ap (λ k. take_out b k (n - k)) (sym none_in_a)))
    | inr some_in_a ↦ rw (
      get_count-eq v,
      le→ltb (b.region_a_count + b.region_b_count) (add64 0 n)
          (omega (arith, length-contents v, v.bounded, v.sized, v.a_in, b_count_le v)),
      ne→== b.region_a_count 0 some_in_a,
      le→ltb b.region_a_count 0 (omega arith),
      whole,
      start,
      load-front,
      load-rest,
      take-parts,
    )
  ]
    where
      whole : b.region_a_count - 0 ≡ b.region_a_count
      whole = omega arith

      start : add64 b.region_a_start 0 ≡ b.region_a_start
      start = omega (arith, v.bounded, v.sized, v.a_in)

-- `read` at -1 of at most the bytes held returns the first ones, from A and then from B, and takes them
-- out.
pub bip_read-front :
    {b : Bip} (n : ℕ)
    → IsValid b
    → n ≤ length (contents b)
    → (b' : Bip) × (read b n npos ≡ ok (take n (contents b), b'))
      × IsValid b'
      × (contents b' ≡ drop n (contents b))
bip_read-front {b} n v h =
    let a = min b.region_a_count n in
    let (valid, rest) =
      take_out_lem a (n - a) v (omega arith) (omega (arith, length-contents v))
        (λ less. omega arith) in
    (
      take_out b a (n - a),
      read_front-eq n v h,
      valid,
      rest ∙ ap (λ k. drop k (contents b)) {x = a + (n - a)} {y = n} (omega arith),
    )
