-- ===== src/Base/Words.antt =====
-- Machine words: `size_t` (64 bits), `uint32` and `int` (32 bits), and the four bytes of a `uint32`
-- in memory, in the little-endian order of the x86 machines that the program is built for.
use Prim.Native.Nat.{ℕ, ◌+◌, ◌-◌, ◌*◌, ◌/◌, ◌%◌, ◌^◌, ◌<◌}
use mathlib.Core.Path.{◌≡◌, refl}
use mathlib.Core.Bool.{Bool}
use mathlib.Core.List.{List, [], ◌∷◌}
use native.Mathlib.Omega.{arith}
use simple_network.Base.Tests.{ltb, leb, if◌then◌else◌}
use simple_network.Base.Lists.{get_or, length}

-- `size_t` addition and subtraction wrap.
abbrev pub add64 : ℕ → ℕ → ℕ
add64 a b = (a + b) % 2 ^ 64

abbrev pub sub64 : ℕ → ℕ → ℕ
sub64 a b = (a + 2 ^ 64 - b) % 2 ^ 64

-- So does the `uint32` one; an assignment to a `uint32` keeps the low 32 bits.
abbrev pub add32 : ℕ → ℕ → ℕ
add32 a b = (a + b) % 2 ^ 32

-- `size_t(-1)`, the offset that stands for "at the end" in the buffers.
abbrev pub npos : ℕ
npos = 2 ^ 64 - 1

-- A `size_t` that goes through an `int` and back: the low 32 bits, sign-extended.
abbrev pub to_int : ℕ → ℕ
to_int x = if ltb (x % 2 ^ 32) (2 ^ 31) then x % 2 ^ 32 else x % 2 ^ 32 + (2 ^ 64 - 2 ^ 32)

-- `<` and `<=` on two such values, as signed numbers.
abbrev pub int_lt : ℕ → ℕ → Bool
int_lt a b = ltb ((a + 2 ^ 63) % 2 ^ 64) ((b + 2 ^ 63) % 2 ^ 64)

abbrev pub int_le : ℕ → ℕ → Bool
int_le a b = leb ((a + 2 ^ 63) % 2 ^ 64) ((b + 2 ^ 63) % 2 ^ 64)

-- `uint32(-1)`, the length of a packet that is not finished.
abbrev pub open_length : ℕ
open_length = 2 ^ 32 - 1

-- `sizeof(uint32)`
abbrev pub word_size : ℕ
word_size = 4

unfoldable pub to_bytes : ℕ → List ℕ
to_bytes n = n % 256 ∷ n / 256 % 256 ∷ n / 65536 % 256 ∷ n / 16777216 % 256 ∷ []

unfoldable pub of_bytes : List ℕ → ℕ
of_bytes bs = get_or bs 0 0 + 256 * get_or bs 1 0 + 65536 * get_or bs 2 0 + 16777216 * get_or bs 3 0

pub of_bytes-to_bytes : (n : ℕ) → n < 2 ^ 32 → of_bytes (to_bytes n) ≡ n
unfolding of_bytes to_bytes
of_bytes-to_bytes n h = omega arith

pub length-to_bytes : (n : ℕ) → length (to_bytes n) ≡ 4
unfolding to_bytes
length-to_bytes n = refl
