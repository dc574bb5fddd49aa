-- ===== src/Buffer/Circle/Index.antt =====
-- The index arithmetic of circle.h, for a size that is a power of two of at most 2 ^ 30: what the
-- masked and `int`-typed expressions amount to.
use native.Mathlib.Nat.{
  one-le-pow, pow-suc, pow-le-pow_right, add-mul-mod_self_right, mod-eq_of_lt, mod-eq-sub-mod,
}
use simple_network.Base.{
  ℕ, zero, suc, ◌+◌, ◌-◌, ◌*◌, ◌%◌, ◌^◌, ◌≤◌, ◌<◌, min, bit_and, ◌≡◌, sym, ap, ◌∙◌, inl, inr, ltb,
  leb, if◌then◌else◌, add64, sub64, to_int, int_lt, int_le, arith, lt-or-le,
}
use simple_network.Base.Bits.{bit_and-mask}
use simple_network.Buffer.Circle.{
  get_count_at, get_continguious_count_at, get_continguious_space_at,
}

-- A size that the masks are right for.
pub record IsSize (n : ℕ) : Type 0 where
  pub bits : ℕ
  pub power : n ≡ 2 ^ bits
  pub small : n ≤ 2 ^ 30

pub size_pos : {n : ℕ} → IsSize n → 0 < n
size_pos s = omega (arith, s.power, one-le-pow s.bits 2 (omega arith))

two-pow-add : (k j : ℕ) → 2 ^ (k + j) ≡ 2 ^ j * 2 ^ k
two-pow-add k zero = omega (arith, ap (λ (t : ℕ). 2 ^ t) {x = k + 0} {y = k} (omega arith))
two-pow-add k (suc j) = omega (
  arith,
  ap (λ (t : ℕ). 2 ^ t) {x = k + suc j} {y = suc (k + j)} (omega arith),
  pow-suc 2 (k + j),
  pow-suc 2 j,
  ap (λ (t : ℕ). t * 2 ^ k) (pow-suc 2 j),
  two-pow-add k j,
)

pub bits_le : (n bits m : ℕ) → n ≡ 2 ^ bits → n < 2 ^ m → bits < m
bits_le n bits m e h = elim (lt-or-le bits m) [
  | inl below ↦ below
  | inr above ↦ absurd (omega (arith, pow-le-pow_right {n = 2} (omega arith) above))
]

pub size_bits : {n : ℕ} (s : IsSize n) → s.bits < 31
size_bits {n} s = bits_le n s.bits 31 s.power (omega (arith, s.small))

-- The size divides 2 ^ 64, so a remainder by it does not see the wrap of `size_t`.
wraps : {n : ℕ} (s : IsSize n) → 2 ^ 64 ≡ 2 ^ (64 - s.bits) * n
wraps {n} s =
    ap (λ (t : ℕ). 2 ^ t) {x = 64} {y = s.bits + (64 - s.bits)} (omega (arith, size_bits s))
    ∙ two-pow-add s.bits (64 - s.bits)
    ∙ ap (λ (t : ℕ). 2 ^ (64 - s.bits) * t) (sym s.power)

-- A remainder that goes round at most once.
pub mod_once : (x n : ℕ) → x < n + n → x % n ≡ (if ltb x n then x else x - n)
mod_once x n h = elim (lt-or-le x n) [
  | inl below ↦ ground (arith, mod-eq_of_lt below)
  | inr above ↦ ground (arith, mod-eq-sub-mod above, mod-eq_of_lt {n = x - n} {m = n} (omega arith))
]

mod-wraps : (w n d : ℕ) → 0 < w → d ≤ n → (w * n - d) % n ≡ (n - d) % n
mod-wraps (suc w) n d h k =
    ap (λ (t : ℕ). t % n) {x = suc w * n - d} {y = n - d + w * n} (omega arith)
    ∙ add-mul-mod_self_right (n - d) w n
mod-wraps zero n d h k = absurd (omega arith)

factor_pos : (w n m : ℕ) → m ≡ w * n → 0 < m → 0 < w
factor_pos zero n m e h = omega arith
factor_pos (suc w) n m e h = omega arith

module _ {n : ℕ} (s : IsSize n) where
  mask : (x : ℕ) → bit_and x (sub64 n 1) ≡ x % n
  mask x =
      ap (bit_and x) {x = sub64 n 1} {y = 2 ^ s.bits - 1}
        (omega (arith, s.power, s.small, size_pos s))
      ∙ bit_and-mask s.bits x
      ∙ ap (λ (t : ℕ). x % t) (sym s.power)

  -- A wrapped difference, masked.
  mask-sub :
      (a b : ℕ)
      → a < n
      → b ≤ n
      → bit_and (sub64 a b) (sub64 n 1) ≡ (if leb b a then a - b else (n - (b - a)) % n)
  mask-sub a b h k = elim (lt-or-le a b) [
    | inl below ↦ ground (
      arith,
      mask (sub64 a b),
      s.small,
      ap (λ (t : ℕ). (t - (b - a)) % n) (wraps s),
      mod-wraps (2 ^ (64 - s.bits)) n (b - a),
      factor_pos (2 ^ (64 - s.bits)) n (2 ^ 64) (wraps s),
    )
    | inr above ↦
        ground (arith, mask (sub64 a b), s.small, mod-eq_of_lt {n = a - b} {m = n} (omega arith))
  ]

-- How many bytes lie between two indices, going round.
abbrev pub gap : ℕ → ℕ → ℕ → ℕ
gap from to n = if leb from to then to - from else to + n - from

module _ (head tail n k : ℕ) (hh : head < n) (ht : tail < n) where
  pub gap-advance : k ≤ gap head tail n → gap ((head + k) % n) tail n ≡ gap head tail n - k
  gap-advance h = ground (arith, mod_once (head + k) n)

  pub gap-extend : gap head tail n + k < n → gap head ((tail + k) % n) n ≡ gap head tail n + k
  gap-extend h = ground (arith, mod_once (tail + k) n)

-- The `int` conversions change nothing in this range.
pub to_int-small : (x : ℕ) → x < 2 ^ 31 → to_int x ≡ x
to_int-small x h = ground arith

pub int_lt-small : (a b : ℕ) → a < 2 ^ 31 → b < 2 ^ 31 → int_lt a b ≡ ltb a b
int_lt-small a b h k = ground arith

pub int_le-small : (a b : ℕ) → a < 2 ^ 31 → b < 2 ^ 31 → int_le a b ≡ leb a b
int_le-small a b h k = ground arith

module _ {n : ℕ} (s : IsSize n) (head tail : ℕ) (hh : head < n) (ht : tail < n) where
  pub get_count_at-eq : get_count_at head tail n ≡ gap head tail n
  unfolding get_count_at
  get_count_at-eq =
      ground (arith, mask-sub s tail head, mod-eq_of_lt {n = n - (head - tail)} {m = n})

  -- The bytes from `head` on, up to `tail` or to the end of the block.
  pub get_continguious_count_at-eq :
      get_continguious_count_at head tail n ≡ min (gap head tail n) (n - head)
  unfolding get_continguious_count_at
  get_continguious_count_at-eq =
      rw
        (
          to_int-small (sub64 n head) (omega (arith, s.small)),
          ends,
          round,
          to_int-small (gap head tail n) (ground (arith, s.small)),
          int_lt-small (gap head tail n) (n - head) (ground (arith, s.small))
              (omega (arith, s.small)),
        )
        (ground arith)
    where
      ends : sub64 n head ≡ n - head
      ends = omega (arith, s.small)

      round : bit_and (add64 tail (n - head)) (sub64 n 1) ≡ gap head tail n
      round =
          ground (arith, mask s (add64 tail (n - head)), s.small, mod_once (tail + (n - head)) n)

  -- The free bytes from `tail` on, up to just before `head` or to the end of the block.
  pub get_continguious_space_at-eq :
      get_continguious_space_at head tail n ≡ min (n - 1 - gap head tail n) (n - tail)
  unfolding get_continguious_space_at
  get_continguious_space_at-eq =
      rw
        (
          ends,
          to_int-small (n - 1 - tail) (omega (arith, s.small)),
          round,
          to_int-small (n - 1 - gap head tail n) (omega (arith, s.small)),
          int_le-small (n - 1 - gap head tail n) (n - 1 - tail) (omega (arith, s.small))
              (omega (arith, s.small)),
          to_int-small (n - 1 - tail + 1) (omega (arith, s.small)),
        )
        (ground arith)
    where
      ends : sub64 (sub64 n 1) tail ≡ n - 1 - tail
      ends = omega (arith, s.small)

      round : bit_and (add64 (n - 1 - tail) head) (sub64 n 1) ≡ n - 1 - gap head tail n
      round =
          ground
            (arith, mask s (add64 (n - 1 - tail) head), s.small, mod_once (n - 1 - tail + head) n)

  -- What `get_space` computes.
  pub space-eq : get_count_at (add64 tail 1) head n ≡ n - 1 - gap head tail n
  unfolding get_count_at
  space-eq = rw next (
      ground (
        arith,
        s.small,
        mask-sub s head (tail + 1),
        mod-eq_of_lt {n = n - (tail + 1 - head)} {m = n},
      ))
    where
      next : add64 tail 1 ≡ tail + 1
      next = omega (arith, s.small)
