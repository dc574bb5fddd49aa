-- ===== src/Base/Splice.antt =====
-- Laws of writing into a block of memory.
use Prim.Native.Nat.{ℕ, zero, suc, ◌+◌, ◌-◌, ◌≤◌, ◌<◌}
use mathlib.Core.Path.{◌≡◌, refl, ap, ap₂, ◌∙◌, sym}
use mathlib.Core.Bool.{◌&&◌}
use mathlib.Core.List.{List, [], ◌∷◌, ◌++◌, append-nil}
use native.Mathlib.Omega.{arith}
use simple_network.Base.Tests.{ltb, leb, if◌then◌else◌}
use simple_network.Base.Lists.{
  length, get_or, take, drop, tabulate, tabulate_ext, tabulate-add, tabulate-get_or,
  get_or-tabulate,
}
use simple_network.Base.Outcome.{Bytes, splice, length-splice}

module _ {ℓ} {A : Type ℓ} where
  pub length-take : (n : ℕ) (xs : List A) → n ≤ length xs → length (take n xs) ≡ n
  length-take zero xs h = refl
  length-take (suc n) [] h = absurd (omega arith)
  length-take (suc n) (x ∷ xs) h = ap suc (length-take n xs (omega arith))

  pub length-drop : (n : ℕ) (xs : List A) → length (drop n xs) ≡ length xs - n
  length-drop zero xs = omega arith
  length-drop (suc n) [] = omega arith
  length-drop (suc n) (x ∷ xs) = omega (arith, length-drop n xs)

  pub get_or-take : (n i : ℕ) (xs : List A) (d : A) → i < n → get_or (take n xs) i d ≡ get_or xs i d
  get_or-take zero i xs d h = absurd (omega arith)
  get_or-take (suc n) i [] d h = refl
  get_or-take (suc n) zero (x ∷ xs) d h = refl
  get_or-take (suc n) (suc i) (x ∷ xs) d h = get_or-take n i xs d (omega arith)

  pub get_or-drop : (n i : ℕ) (xs : List A) (d : A) → get_or (drop n xs) i d ≡ get_or xs (n + i) d
  get_or-drop zero i xs d = ap (λ k. get_or xs k d) (omega arith)
  get_or-drop (suc n) i [] d = refl
  get_or-drop (suc n) i (x ∷ xs) d =
      get_or-drop n i xs d
      ∙ ap (λ k. get_or (x ∷ xs) k d) {x = suc (n + i)} {y = suc n + i} (omega arith)

  pub get_or-append_left :
      (xs ys : List A) (i : ℕ) (d : A) → i < length xs → get_or (xs ++ ys) i d ≡ get_or xs i d
  get_or-append_left [] ys i d h = absurd (omega arith)
  get_or-append_left (x ∷ xs) ys zero d h = refl
  get_or-append_left (x ∷ xs) ys (suc i) d h = get_or-append_left xs ys i d (omega arith)

  pub take-append-drop : (n : ℕ) (xs : List A) → take n xs ++ drop n xs ≡ xs
  take-append-drop zero xs = refl
  take-append-drop (suc n) [] = refl
  take-append-drop (suc n) (x ∷ xs) = ap (◌∷◌ x) (take-append-drop n xs)

  pub take-take : (n m : ℕ) (xs : List A) → n ≤ m → take n (take m xs) ≡ take n xs
  take-take zero m xs h = refl
  take-take (suc n) zero xs h = absurd (omega arith)
  take-take (suc n) (suc m) [] h = refl
  take-take (suc n) (suc m) (x ∷ xs) h = ap (◌∷◌ x) (take-take n m xs (omega arith))

pub take-all : (k : ℕ) (bs : Bytes) → length bs ≤ k → take k bs ≡ bs
take-all zero [] h = refl
take-all zero (b ∷ bs) h = absurd (omega arith)
take-all (suc k) [] h = refl
take-all (suc k) (b ∷ bs) h = ap (◌∷◌ b) (take-all k bs (omega arith))

pub take-whole : (k : ℕ) (bs : Bytes) → length bs ≡ k → take k bs ≡ bs
take-whole k bs h =
    sym (append-nil (take k bs)) ∙ ap (◌++◌ (take k bs)) (sym nothing) ∙ take-append-drop k bs
  where
    empty : (xs : Bytes) → length xs ≡ 0 → xs ≡ []
    empty [] e = refl
    empty (x ∷ xs) e = absurd (omega arith)

    nothing : drop k bs ≡ []
    nothing = empty (drop k bs) (omega (arith, length-drop k bs))

-- Two writes, one right behind the other.
pub splice-splice :
    (mem : Bytes) (p k : ℕ) (bs : Bytes)
    → k ≤ length bs
    → splice (splice mem p (take k bs)) (p + k) (drop k bs) ≡ splice mem p bs
unfolding splice
splice-splice mem p k bs h =
    ap (λ n. tabulate n second) (length-splice mem p (take k bs))
    ∙ tabulate_ext (length mem) _ _ same
  where
    first : ℕ → ℕ
    first i =
        if leb p i && ltb i (p + length (take k bs))
        then get_or (take k bs) (i - p) 0
        else get_or mem i 0

    second : ℕ → ℕ
    second i =
        if leb (p + k) i && ltb i (p + k + length (drop k bs))
        then get_or (drop k bs) (i - (p + k)) 0
        else get_or (tabulate (length mem) first) i 0

    same :
        (i : ℕ)
        → i < length mem
        → second i
          ≡ (if leb p i && ltb i (p + length bs) then get_or bs (i - p) 0 else get_or mem i 0)
    same i hi = ground (
      arith,
      length-take k bs,
      length-drop k bs,
      get_or-take k (i - p) bs 0,
      get_or-drop k (i - (p + k)) bs 0,
      ap (λ j. get_or bs j 0) {x = k + (i - (p + k))} {y = i - p},
      get_or-tabulate (length mem) first i 0,
    )

take-table : (k : ℕ) (xs : Bytes) → k ≤ length xs → tabulate k (λ i. get_or xs i 0) ≡ take k xs
take-table k xs h =
    tabulate_ext k _ _ (λ i hi. sym (get_or-take k i xs 0 hi))
    ∙ ap (λ n. tabulate n (λ i. get_or (take k xs) i 0)) (sym (length-take k xs h))
    ∙ tabulate-get_or (take k xs) 0

drop-table :
    (k n : ℕ) (xs : Bytes) → length xs ≡ k + n → tabulate n (λ i. get_or xs (k + i) 0) ≡ drop k xs
drop-table k n xs h =
    tabulate_ext n _ _ (λ i hi. sym (get_or-drop k i xs 0))
    ∙ ap (λ n. tabulate n (λ i. get_or (drop k xs) i 0)) {x = n} {y = length (drop k xs)}
        (omega (arith, length-drop k xs))
    ∙ tabulate-get_or (drop k xs) 0

-- What a write leaves of a list: the front, the bytes written, and the rest.
pub splice-parts :
    (xs : Bytes) (k n : ℕ) (bs : Bytes)
    → length xs ≡ k + (length bs + n)
    → splice xs k bs ≡ take k xs ++ (bs ++ drop (k + length bs) xs)
unfolding splice
splice-parts xs k n bs h =
    ap (λ m. tabulate m byte_at) h
    ∙ tabulate-add k (length bs + n) byte_at
    ∙ ap₂ ◌++◌ (tabulate_ext k _ _ before ∙ take-table k xs (omega arith)) (
        tabulate-add (length bs) n (λ i. byte_at (k + i))
        ∙ ap₂ ◌++◌ (tabulate_ext (length bs) _ _ within ∙ tabulate-get_or bs 0)
            (tabulate_ext n _ _ after ∙ drop-table (k + length bs) n xs (omega arith)))
  where
    byte_at : ℕ → ℕ
    byte_at i = if leb k i && ltb i (k + length bs) then get_or bs (i - k) 0 else get_or xs i 0

    before : (i : ℕ) → i < k → byte_at i ≡ get_or xs i 0
    before i hi = ground arith

    within : (i : ℕ) → i < length bs → byte_at (k + i) ≡ get_or bs i 0
    within i hi = ground (arith, ap (λ j. get_or bs j 0) {x = k + i - k} {y = i} (omega arith))

    after : (i : ℕ) → i < n → byte_at (k + (length bs + i)) ≡ get_or xs (k + length bs + i) 0
    after i hi = ground (
      arith,
      ap (λ j. get_or xs j 0) {x = k + (length bs + i)} {y = k + length bs + i} (omega arith),
    )

drop-all : (k : ℕ) (xs : Bytes) → length xs ≡ k → drop k xs ≡ []
drop-all zero [] h = refl
drop-all zero (x ∷ xs) h = absurd (omega arith)
drop-all (suc k) [] h = refl
drop-all (suc k) (x ∷ xs) h = drop-all k xs (omega arith)

-- A write at the end of a list.
pub splice-end :
    (xs : Bytes) (k : ℕ) (bs : Bytes) → length xs ≡ k + length bs → splice xs k bs ≡ take k xs ++ bs
splice-end xs k bs h =
    splice-parts xs k 0 bs (omega arith)
    ∙ ap (λ r. take k xs ++ (bs ++ r)) (drop-all (k + length bs) xs h)
    ∙ ap (◌++◌ (take k xs)) (append-nil bs)
