-- ===== src/Programs/SquareRoot.antt =====
-- src/test.cc: a square root in single precision and the two tests of it. A `double` and a `float` are
-- their 64 and 32 bits.
mod Tests
use simple_network.Base.{
  ℕ, ◌*◌, ◌%◌, ◌^◌, ◌<◌, ◌≡◌, ◌≢◌, refl, ap, ◌∙◌, inl, inr, Bool, true, false, not, ◌&&◌, ◌||◌, ltb,
  ◌==◌, if◌then◌else◌, arith, ne→==, lt→ltb, Bool-cases,
}

-- The two conversions between `double` and `float`, and `sqrtf`.
pub record Floats : Type 0 where
  pub narrow : ℕ → ℕ
  pub sqrtf : ℕ → ℕ
  pub widen : ℕ → ℕ

abbrev pub is_nan : ℕ → Bool
is_nan x = ltb (2047 * 2 ^ 52) (x % 2 ^ 63)

abbrev pub is_nan_float : ℕ → Bool
is_nan_float w = ltb (255 * 2 ^ 23) (w % 2 ^ 31)

-- `==` of two doubles: a NaN equals nothing, and the two zeros are equal.
abbrev pub equal : ℕ → ℕ → Bool
equal x y = not (is_nan x || is_nan y) && ((x == y) || ((x % 2 ^ 63 == 0) && (y % 2 ^ 63 == 0)))

-- 324.0, 18.0, 645.16, 25.4, 2533.310224, 50.3321, -22.0 and -1.
abbrev pub d324 : ℕ
d324 = 4644407484470001664

abbrev pub d18 : ℕ
d18 = 4625759767262920704

abbrev pub d645_16 : ℕ
d645_16 = 4648886103193189089

abbrev pub d25_4 : ℕ
d25_4 = 4627842682090579558

abbrev pub d2533_310224 : ℕ
d2533_310224 = 4657789223169826014

abbrev pub d50_3321 : ℕ
d50_3321 = 4632280430647148596

abbrev pub minus_22 : ℕ
minus_22 = 13850257704024539136

abbrev pub minus_1 : ℕ
minus_1 = 13830554455654793216

unfoldable pub square_root : Floats → ℕ → ℕ
square_root f x = f.widen (f.sqrtf (f.narrow x))

-- Whether the test passes: all three expectations are looked at.
unfoldable pub positive_nos : Floats → Bool
positive_nos f =
    equal d18 (square_root f d324)
    && equal d25_4 (square_root f d645_16)
    && equal d50_3321 (square_root f d2533_310224)

-- The second assertion is not looked at when the first one fails.
unfoldable pub zero_and_negative_nos : Floats → Bool
zero_and_negative_nos f =
    if equal 0 (square_root f 0) then equal minus_1 (square_root f minus_22) else false

-- The double of a float that is a number ends in 29 zero bits.
abbrev pub WidensExactly : Floats → Type 0
WidensExactly f = (w : ℕ) → is_nan_float w ≡ false → f.widen w % 2 ^ 29 ≡ 0

abbrev pub KeepsNan : Floats → Type 0
KeepsNan f = (w : ℕ) → is_nan_float w ≡ true → is_nan (f.widen w) ≡ true

-- `sqrtf` of a negative number is a NaN. -22.0 is a float.
abbrev pub NegativeIsNan : Floats → Type 0
NegativeIsNan f = is_nan_float (f.sqrtf (f.narrow minus_22)) ≡ true

equal-nan : (x y : ℕ) → is_nan y ≡ true → equal x y ≡ false
equal-nan x y h = elim (Bool-cases (is_nan x)) [ inl t ↦ rw (t) | inr n ↦ rw (n, h) ]

and-false : (b : Bool) → b && false ≡ false
and-false true = refl
and-false false = refl

and-middle : (a b : Bool) → a && false && b ≡ false
and-middle true true = refl
and-middle true false = refl
and-middle false true = refl
and-middle false false = refl

equal-unlike : (x y : ℕ) → x % 2 ^ 29 ≢ 0 → y % 2 ^ 29 ≡ 0 → equal x y ≡ false
equal-unlike x y long short = rw (
  ne→== x y (λ same. long (ap (λ n. n % 2 ^ 29) same ∙ short)),
  ne→== (x % 2 ^ 63) 0 (λ z. long (omega (arith, z))),
  and-false (not (is_nan x || is_nan y)),
)

-- A double that has more bits than a float is the square root of nothing.
never-equal :
    (f : Floats) (x y : ℕ)
    → WidensExactly f
    → KeepsNan f
    → x % 2 ^ 29 ≢ 0
    → equal x (square_root f y) ≡ false
unfolding square_root
never-equal f x y exact keeps long = elim (Bool-cases (is_nan_float (f.sqrtf (f.narrow y)))) [
  | inl t ↦ equal-nan x _ (keeps _ t)
  | inr n ↦ equal-unlike x _ long (exact _ n)
]

negative-unequal :
    (f : Floats) → KeepsNan f → NegativeIsNan f → equal minus_1 (square_root f minus_22) ≡ false
unfolding square_root
negative-unequal f keeps negative = equal-nan minus_1 _ (keeps _ negative)

-- Neither test passes, whatever else `sqrtf` returns, when the conversion of a float to a double is exact
-- and keeps a NaN, and `sqrtf` of -22 is a NaN: 25.4 is not the value of any float, and a NaN is not -1.
pub tests-fail :
    (f : Floats)
    → WidensExactly f
    → KeepsNan f
    → NegativeIsNan f
    → (positive_nos f ≡ false) × (zero_and_negative_nos f ≡ false)
unfolding positive_nos zero_and_negative_nos
tests-fail f exact keeps negative = (
  rw (never-equal f d25_4 d645_16 exact keeps (λ z. absurd (omega (arith, z))))
      (and-middle (equal d18 (square_root f d324)) (equal d50_3321 (square_root f d2533_310224))),
  rw (negative-unequal f keeps negative) (same-false (equal 0 (square_root f 0))),
)
  where
    same-false : (b : Bool) → (if b then false else false) ≡ false
    same-false true = refl
    same-false false = refl
