-- ===== src/Base/Slices.antt =====
-- Laws of the pieces of a block of memory.
use Prim.Native.Nat.{ℕ, ◌+◌, ◌-◌, ◌≤◌}
use mathlib.Core.Path.{◌≡◌, refl, ap, ◌∙◌}
use mathlib.Core.Logic.{◌⊎◌, inl, inr}
use mathlib.Core.List.{[], ◌++◌}
use native.Mathlib.Omega.{arith}
use simple_network.Base.Lists.{
  length, get_or, take, drop, tabulate, tabulate_ext, tabulate-add, tabulate-get_or, take-append,
  drop-append,
}
use simple_network.Base.Outcome.{Bytes, slice, splice, length-slice, get_or-splice}

pub slice-empty : (m : Bytes) (p q : ℕ) → slice m p 0 ≡ slice m q 0
unfolding slice tabulate
slice-empty m p q = refl

nothing : (m : Bytes) (p : ℕ) → slice m p 0 ≡ []
unfolding slice tabulate
nothing m p = refl

pub slice-none : (m : Bytes) (p n : ℕ) → n ≡ 0 → slice m p n ≡ []
slice-none m p n e = ap (slice m p) e ∙ nothing m p

pub slice-add : (m : Bytes) (p n k : ℕ) → slice m p (n + k) ≡ slice m p n ++ slice m (p + n) k
unfolding slice
slice-add m p n k =
    tabulate-add n k _
    ∙ ap (◌++◌ (slice m p n)) (
        tabulate_ext k _ _
          (λ i hi. ap (λ j. get_or m j 0) {x = p + (n + i)} {y = p + n + i} (omega arith)))

slice-split : (m : Bytes) (p n k : ℕ) → n ≤ k → slice m p k ≡ slice m p n ++ slice m (p + n) (k - n)
slice-split m p n k h =
    ap (slice m p) {x = k} {y = n + (k - n)} (omega arith) ∙ slice-add m p n (k - n)

pub take-slice : (m : Bytes) (p n k : ℕ) → n ≤ k → take n (slice m p k) ≡ slice m p n
take-slice m p n k h = ap (take n) (slice-split m p n k h) ∙ take-append n _ _ (length-slice m p n)

pub drop-slice : (m : Bytes) (p n k : ℕ) → n ≤ k → drop n (slice m p k) ≡ slice m (p + n) (k - n)
drop-slice m p n k h = ap (drop n) (slice-split m p n k h) ∙ drop-append n _ _ (length-slice m p n)

-- A write is read back.
pub slice-splice_same :
    (m : Bytes) (p : ℕ) (bs : Bytes)
    → p + length bs ≤ length m
    → slice (splice m p bs) p (length bs) ≡ bs
unfolding slice
slice-splice_same m p bs h =
    tabulate_ext (length bs) _ (λ i. get_or bs i 0)
      (λ i hi.
        get_or-splice m p bs (p + i) (omega arith)
        ∙ ground (arith, ap (λ j. get_or bs j 0) {x = p + i - p} {y = i} (omega arith)))
    ∙ tabulate-get_or bs 0

-- A write elsewhere leaves a piece as it is.
pub slice-splice_other :
    (m : Bytes) (p n q : ℕ) (bs : Bytes)
    → p + n ≤ length m
    → (p + n ≤ q) ⊎ (q + length bs ≤ p)
    → slice (splice m q bs) p n ≡ slice m p n
unfolding slice
slice-splice_other m p n q bs h apart = tabulate_ext n _ _ (λ i hi.
    get_or-splice m q bs (p + i) (omega arith)
    ∙ elim apart [ inl a ↦ ground (arith, a) | inr a ↦ ground (arith, a) ])
