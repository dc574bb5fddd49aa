-- ===== src/Kcp/Conv.antt =====
-- `get_conv` of kcp/acceptor.h finds a conversation that is free.
use simple_network.Base.{
  among, erase, erase_other, ℕ, zero, suc, ◌+◌, ◌-◌, ◌^◌, ◌≤◌, ◌<◌, ◌≡◌, ◌≢◌, refl, sym, ap, subst,
  ◌∙◌, inl, inr, true, false, List, [], ◌∷◌, length, Run, ok, err, fault, out_of_fuel, Bool-cases,
  if◌then◌else◌, ltb, eq→==, ne→==, eq-or-ne, arith, tt,
}
use simple_network.Kcp.{next_conv, get_conv}

-- How many conversations there are: 0 is none.
abbrev pub all_convs : ℕ
all_convs = 2 ^ 32 - 1

-- How many steps of the counter lead from one conversation to another, at least one.
abbrev steps : ℕ → ℕ → ℕ
steps c v = if ltb c v then v - c else v + all_convs - c

next_conv-range : (c : ℕ) → (0 < next_conv c) × (next_conv c < 2 ^ 32)
unfolding next_conv
next_conv-range c = ground arith

next_conv-other : (c v : ℕ) → c < 2 ^ 32 → v < 2 ^ 32 → 0 < v → 1 < steps c v → next_conv c ≢ v
unfolding next_conv
next_conv-other c v hc hv pos far = ground arith

steps-next :
    (c v : ℕ)
    → c < 2 ^ 32
    → v < 2 ^ 32
    → 0 < v
    → 1 < steps c v
    → suc (steps (next_conv c) v) ≡ steps c v
unfolding next_conv
steps-next c v hc hv pos far = ground arith

-- A conversation that is further away than the fuel leads does not matter.
get_conv-far :
    (fuel : ℕ) (convs : List ℕ) (c v : ℕ)
    → c < 2 ^ 32
    → v < 2 ^ 32
    → 0 < v
    → fuel < steps c v
    → get_conv fuel convs c ≡ get_conv fuel (erase v convs) c
unfolding get_conv
get_conv-far zero convs c v hc hv pos far = refl
get_conv-far (suc fuel) convs c v hc hv pos far =
    rw (erase_other v (next_conv c) convs (next_conv-other c v hc hv pos (omega arith))) (
      ap (λ r. if among (next_conv c) convs then r else ok (next_conv c))
        (get_conv-far fuel convs (next_conv c) v (next_conv-range c).1 hv pos
          (omega (arith, steps-next c v hc hv pos (omega arith)))))

length-erase : (e : ℕ) (xs : List ℕ) → among e xs ≡ true → suc (length (erase e xs)) ≡ length xs
length-erase e [] h = absurd (grind arith)
length-erase e (x ∷ xs) h = elim (eq-or-ne x e) [
  | inl same ↦ rw (eq→== x e same) refl
  | inr other ↦ rw (ne→== x e other) (
      ap suc
        (length-erase e xs (sym (ap (λ b. if b then true else among e xs) (ne→== x e other)) ∙ h)))
]

-- What is returned is free and not 0.
abbrev Sound : List ℕ → Run ℕ → Type 0
Sound convs (ok n) = (among n convs ≡ false) × (0 < n) × (n < 2 ^ 32)
Sound convs (err e) = Unit
Sound convs fault = Unit
Sound convs out_of_fuel = Unit

get_conv-Sound : (fuel : ℕ) (convs : List ℕ) (c : ℕ) → Sound convs (get_conv fuel convs c)
unfolding get_conv
get_conv-Sound zero convs c = tt
get_conv-Sound (suc fuel) convs c = elim (Bool-cases (among (next_conv c) convs)) [
  | inl used ↦ rw used (get_conv-Sound fuel convs (next_conv c))
  | inr free ↦ rw free (free, (next_conv-range c).0, (next_conv-range c).1)
]

-- Fuel above the number of conversations in use is enough.
get_conv-ends :
    (fuel : ℕ) (convs : List ℕ) (c : ℕ)
    → length convs < fuel
    → fuel ≤ all_convs
    → (n : ℕ) × (get_conv fuel convs c ≡ ok n)
unfolding get_conv
get_conv-ends zero convs c more few = absurd (omega arith)
get_conv-ends (suc fuel) convs c more few = elim (Bool-cases (among (next_conv c) convs)) [
  | inl used ↦
      let n = next_conv c in
      let (m, run) =
        get_conv-ends fuel (erase n convs) n (omega (arith, length-erase n convs used))
          (omega arith) in
      (
        m,
        rw used (
            get_conv-far fuel convs n n (next_conv-range c).1 (next_conv-range c).1
              (next_conv-range c).0 (ground arith)
            ∙ run),
      )
  | inr free ↦ (next_conv c, rw free refl)
]

-- `get_conv` returns a conversation that is not in use, not 0 and below 2^32, within as many calls as
-- there are conversations in use and one more, when fewer than 2^32 - 1 are in use.
pub get_conv-free :
    (fuel : ℕ) (convs : List ℕ) (c : ℕ)
    → length convs < fuel
    → fuel ≤ all_convs
    → (n : ℕ) × (get_conv fuel convs c ≡ ok n) × (among n convs ≡ false) × (0 < n) × (n < 2 ^ 32)
get_conv-free fuel convs c more few =
    let (n, run) = get_conv-ends fuel convs c more few in
    let (free, pos, small) = subst (Sound convs) run (get_conv-Sound fuel convs c) in
    (n, run, free, pos, small)
