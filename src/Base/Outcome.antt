-- ===== src/Base/Outcome.antt =====
-- What a run of the C++ code ends in, and blocks of memory.
use Prim.Native.Nat.{ℕ, ◌+◌, ◌-◌, ◌≤◌, ◌<◌}
use mathlib.Core.Path.{◌≡◌, ap}
use mathlib.Core.Bool.{◌&&◌}
use mathlib.Core.List.{List}
use simple_network.Base.Tests.{ltb, leb, if◌then◌else◌, le→leb, lt→leb}
use simple_network.Base.Lists.{length, get_or, tabulate, length-tabulate, get_or-tabulate}

-- The `enum` of buffer.h.
pub data Error : Type 0 where
  read_no_enough_space : Error
  write_invalid_offset : Error
  write_no_space : Error
  read_invalid_offset : Error
  remove_from_back_no_space : Error
  remove_no_space : Error

-- `fault` is undefined behaviour, an access outside a block of memory; `out_of_fuel` is a run that
-- has not ended within the calls that it was given.
pub data Run {ℓ} (A : Type ℓ) : Type ℓ where
  ok : A → Run A
  err : Error → Run A
  fault : Run A
  out_of_fuel : Run A

-- The value of a run, or a default.
abbrev pub value_or {ℓ} : {A : Type ℓ} → A → Run A → A
value_or d (ok x) = x
value_or d (err e) = d
value_or d fault = d
value_or d out_of_fuel = d

pub ok-injective {ℓ} : {A : Type ℓ} {x y : A} → ◌≡◌ {A = Run A} (ok x) (ok y) → x ≡ y
ok-injective {x = x} e = ap (value_or x) e

infixl 5 ◌>>=◌
abbrev pub ◌>>=◌ {ℓ κ} : {A : Type ℓ} {B : Type κ} → Run A → (A → Run B) → Run B
ok a >>= f = f a
err e >>= f = err e
fault >>= f = fault
out_of_fuel >>= f = out_of_fuel

abbrev pub Bytes : Type 0
Bytes = List ℕ

-- The `n` bytes from index `p` on.
unfoldable pub slice : Bytes → ℕ → ℕ → Bytes
slice mem p n = tabulate n (λ j. get_or mem (p + j) 0)

-- The block with `bs` written at index `p`.
unfoldable pub splice : Bytes → ℕ → Bytes → Bytes
splice mem p bs =
    tabulate (length mem)
      (λ i. if leb p i && ltb i (p + length bs) then get_or bs (i - p) 0 else get_or mem i 0)

-- `memcpy` out of a block, and into one.
unfoldable pub load : Bytes → ℕ → ℕ → Run Bytes
load mem p n = if leb (p + n) (length mem) then ok (slice mem p n) else fault

unfoldable pub store : Bytes → ℕ → Bytes → Run Bytes
store mem p bs = if leb (p + length bs) (length mem) then ok (splice mem p bs) else fault

pub load-ok : (mem : Bytes) (p n : ℕ) → p + n ≤ length mem → load mem p n ≡ ok (slice mem p n)
unfolding load
load-ok mem p n h = rw (le→leb (p + n) (length mem) h)

pub store-ok :
    (mem : Bytes) (p : ℕ) (bs : Bytes)
    → p + length bs ≤ length mem
    → store mem p bs ≡ ok (splice mem p bs)
unfolding store
store-ok mem p bs h = rw (le→leb (p + length bs) (length mem) h)

pub store-fault :
    (mem : Bytes) (p : ℕ) (bs : Bytes) → length mem < p + length bs → store mem p bs ≡ fault
unfolding store
store-fault mem p bs h = rw (lt→leb (p + length bs) (length mem) h)

pub length-splice : (mem : Bytes) (p : ℕ) (bs : Bytes) → length (splice mem p bs) ≡ length mem
unfolding splice
length-splice mem p bs = length-tabulate _ _

pub length-slice : (mem : Bytes) (p n : ℕ) → length (slice mem p n) ≡ n
unfolding slice
length-slice mem p n = length-tabulate _ _

pub get_or-slice :
    (mem : Bytes) (p n i : ℕ) → i < n → get_or (slice mem p n) i 0 ≡ get_or mem (p + i) 0
unfolding slice
get_or-slice mem p n i h = get_or-tabulate n _ i 0 h

-- A byte of a block after a write.
pub get_or-splice :
    (mem : Bytes) (p : ℕ) (bs : Bytes) (i : ℕ)
    → i < length mem
    → get_or (splice mem p bs) i 0
      ≡ (if leb p i && ltb i (p + length bs) then get_or bs (i - p) 0 else get_or mem i 0)
unfolding splice
get_or-splice mem p bs i h = get_or-tabulate (length mem) _ i 0 h
