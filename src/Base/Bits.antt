-- ===== src/Base/Bits.antt =====
-- `x & (2 ^ k - 1)` is the remainder by `2 ^ k`.
use Prim.Native.Nat.{ℕ, zero, suc, ◌+◌, ◌-◌, ◌*◌, ◌/◌, ◌%◌, ◌^◌, ◌≤◌, ◌<◌, min, bit_and}
use Prim.Native.Nat.{digits, bit_and-bitwise}
use mathlib.Core.Path.{◌≡◌, refl, ap, ◌∙◌}
use native.Mathlib.Omega.{arith}
use native.Mathlib.Nat.{
  pow-suc, one-le-pow, div-add-mod, mod-lt, mul-add-mod_self_right, mod-eq_of_lt,
}

-- The native operation is a recursion on binary digits; any bound on the first number serves.
and_within : ℕ → ℕ → ℕ → ℕ
and_within fuel x y = digits (λ b. zero) min fuel x y

and_within_fuel : (m n x y : ℕ) → x ≤ m → x ≤ n → and_within m x y ≡ and_within n x y
unfolding and_within
and_within_fuel zero zero x y p q = refl
and_within_fuel zero (suc n) zero y p q = refl
and_within_fuel zero (suc n) (suc x) y p q = absurd (omega arith)
and_within_fuel (suc m) zero zero y p q = refl
and_within_fuel (suc m) zero (suc x) y p q = absurd (omega arith)
and_within_fuel (suc m) (suc n) zero y p q = refl
and_within_fuel (suc m) (suc n) (suc x) y p q =
    omega (arith, and_within_fuel m n (suc x / 2) (y / 2) (omega arith) (omega arith))

and_halves : (x y : ℕ) → bit_and x y ≡ 2 * bit_and (x / 2) (y / 2) + min (x % 2) (y % 2)
unfolding and_within
and_halves zero y = omega (arith, bit_and-bitwise 0 y, bit_and-bitwise 0 (y / 2))
and_halves (suc x) y = omega (
  arith,
  bit_and-bitwise (suc x) y,
  bit_and-bitwise (suc x / 2) (y / 2),
  and_within_fuel x (suc x / 2) (suc x / 2) (y / 2) (omega arith) (omega arith),
)

and_none : (bound x : ℕ) → x ≤ bound → bit_and x 0 ≡ 0
and_none bound zero h = refl
and_none zero (suc x) h = absurd (omega arith)
and_none (suc bound) (suc x) h =
    omega (arith, and_halves (suc x) 0, and_none bound (suc x / 2) (omega arith))

-- The remainder by `2 * p`, from that of the half by `p`.
mod-double : (p x : ℕ) → 0 < p → x % (p * 2) ≡ 2 * (x / 2 % p) + x % 2
mod-double p x h =
    ap (λ (t : ℕ). t % (p * 2)) split
    ∙ mul-add-mod_self_right (x / 2 / p) (p * 2) low
    ∙ mod-eq_of_lt (omega (arith, mod-lt (x / 2) h))
  where
    low : ℕ
    low = 2 * (x / 2 % p) + x % 2

    split : x ≡ x / 2 / p * (p * 2) + low
    split = omega (arith, div-add-mod (x / 2) p)

pub bit_and-mask : (k x : ℕ) → bit_and x (2 ^ k - 1) ≡ x % 2 ^ k
bit_and-mask zero x = omega (arith, and_none x x (omega arith))
bit_and-mask (suc k) x = omega (
  arith,
  pow-suc 2 k,
  one-le-pow k 2 (omega arith),
  and_halves x (2 ^ suc k - 1),
  ap (bit_and (x / 2)) half,
  bit_and-mask k (x / 2),
  ap (λ (t : ℕ). x % t) (pow-suc 2 k),
  mod-double (2 ^ k) x (one-le-pow k 2 (omega arith)),
)
  where
    half : (2 ^ suc k - 1) / 2 ≡ 2 ^ k - 1
    half = omega (arith, pow-suc 2 k, one-le-pow k 2 (omega arith))
