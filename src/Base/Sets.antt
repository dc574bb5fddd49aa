-- ===== src/Base/Sets.antt =====
-- Sets as lists without repetition, as the loops of udp/acceptor.h over its endpoints keep them: the
-- elements are numbers that stand for endpoints, conversations and timers.
use Prim.{tt}
use Prim.Native.Nat.{ℕ}
use mathlib.Core.Path.{◌≡◌, refl, ap, ◌∙◌, sym, subst}
use mathlib.Core.Logic.{◌≢◌, inl, inr}
use mathlib.Core.Bool.{Bool, true, false}
use mathlib.Core.List.{List, [], ◌∷◌, ◌++◌}
use native.Mathlib.Omega.{arith}
use simple_network.Base.Tests.{◌==◌, if◌then◌else◌, eq→==, ne→==, eq-or-ne}

-- Whether an element is there.
abbrev pub among : ℕ → List ℕ → Bool
among e [] = false
among e (x ∷ xs) = if x == e then true else among e xs

-- The first such element is taken out.
abbrev pub erase : ℕ → List ℕ → List ℕ
erase e [] = []
erase e (x ∷ xs) = let rest = erase e xs in if x == e then xs else x ∷ rest

-- No number stands twice.
abbrev pub AllDiffer : List ℕ → Type 0
AllDiffer [] = Unit
AllDiffer (x ∷ xs) = (among x xs ≡ false) × AllDiffer xs

pub among-end : (e x : ℕ) (xs : List ℕ) → x ≢ e → among e (xs ++ (x ∷ [])) ≡ among e xs
among-end e x [] h = rw (ne→== x e h)
among-end e x (y ∷ ys) h = ap (λ b. if y == e then true else b) (among-end e x ys h)

pub among-end_same : (e : ℕ) (xs : List ℕ) → among e (xs ++ (e ∷ [])) ≡ true
among-end_same e [] = rw (eq→== e e refl)
among-end_same e (y ∷ ys) = elim (eq-or-ne y e) [
  | inl same ↦ rw (eq→== y e same)
  | inr other ↦ rw (ne→== y e other, among-end_same e ys)
]

pub among-head : (e x : ℕ) (xs : List ℕ) → among e (x ∷ xs) ≡ false → (x ≢ e) × (among e xs ≡ false)
among-head e x xs h = grind (arith, eq→== x e, ne→== x e)

pub AllDiffer-end :
    (e : ℕ) (xs : List ℕ) → AllDiffer xs → among e xs ≡ false → AllDiffer (xs ++ (e ∷ []))
AllDiffer-end e [] d h = (refl, tt)
AllDiffer-end e (x ∷ xs) (fresh, d) h =
    let (other, rest) = among-head e x xs h in
    (among-end x e xs (λ same. other (sym same)) ∙ fresh, AllDiffer-end e xs d rest)

pub erase_same : (e : ℕ) (xs : List ℕ) → AllDiffer xs → among e (erase e xs) ≡ false
erase_same e [] d = refl
erase_same e (x ∷ xs) (fresh, d) = elim (eq-or-ne x e) [
  | inl same ↦ rw (eq→== x e same) (subst (λ y. among y xs ≡ false) same fresh)
  | inr other ↦ rw (ne→== x e other, ne→== x e other) (erase_same e xs d)
]

pub erase_other : (e y : ℕ) (xs : List ℕ) → y ≢ e → among y (erase e xs) ≡ among y xs
erase_other e y [] h = refl
erase_other e y (x ∷ xs) h = elim (eq-or-ne x e) [
  | inl same ↦ rw (eq→== x e same, ne→== x y (λ s. h (sym s ∙ same)))
  | inr other ↦ rw (ne→== x e other) (ap (λ b. if x == y then true else b) (erase_other e y xs h))
]

pub AllDiffer-erase : (e : ℕ) (xs : List ℕ) → AllDiffer xs → AllDiffer (erase e xs)
AllDiffer-erase e [] d = tt
AllDiffer-erase e (x ∷ xs) (fresh, d) = elim (eq-or-ne x e) [
  | inl same ↦ rw (eq→== x e same) d
  | inr other ↦ rw (ne→== x e other) (erase_other e x xs other ∙ fresh, AllDiffer-erase e xs d)
]
