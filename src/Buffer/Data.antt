-- ===== src/Buffer/Data.antt =====
-- `struct data` of buffer/buffer.h: an owned block of bytes with the largest size it may grow to.
-- `end - start` is the length of the block. A new block holds zeros here; the C++ code leaves its
-- bytes unspecified, and no theorem depends on them.
use simple_network.Base.{ℕ, Bytes, length, replicate, ◌≡◌, refl, length-replicate}

pub record Data : Type 0 where
  pub mem : Bytes
  pub max_size : ℕ

unfoldable pub make : ℕ → ℕ → Data
make max_size default_size = record { mem = replicate default_size 0; max_size = max_size }

abbrev pub get_size : Data → ℕ
get_size d = length d.mem

pub get_size-make : (m n : ℕ) → get_size (make m n) ≡ n
unfolding make
get_size-make m n = length-replicate n 0

pub max_size-make : (m n : ℕ) → (make m n).max_size ≡ m
unfolding make
max_size-make m n = refl
