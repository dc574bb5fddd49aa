-- ===== src/Buffer.antt =====
-- lib/simple/reactor/buffer: the block of memory, the containers over it, and `class buffer` of
-- buffer.h with the default container `circle`. Its templates read and write the bytes of a value in
-- memory; a value is its list of bytes here.
pub mod Data
pub mod Circle
pub mod Array
pub mod Bip
pub mod Container
use simple_network.Base.{ℕ, true, Bytes, Run, npos}
use Circle.{Circle as Ring}

-- The constructor with its default sizes.
abbrev pub default_max_size : ℕ
default_max_size = 409600

abbrev pub default_size : ℕ
default_size = 1024

unfoldable pub make : Ring
make = Circle.make default_max_size default_size

-- `read(value)` takes the value out; `read(value, offset)` leaves it.
unfoldable pub read_value : ℕ → Ring → ℕ → Run (Bytes × Ring)
read_value fuel c count = Circle.read fuel c count npos true

unfoldable pub read_value_at : ℕ → Ring → ℕ → ℕ → Run (Bytes × Ring)
read_value_at fuel c count offset = Circle.read fuel c count offset true

unfoldable pub write_value : ℕ → Ring → Bytes → Run Ring
write_value fuel c bytes = Circle.write fuel c bytes npos

unfoldable pub write_value_at : ℕ → Ring → Bytes → ℕ → Run Ring
write_value_at fuel c bytes offset = Circle.write fuel c bytes offset

-- `operator<<` for a value that is not a byte: the overload that is chosen takes the address as the
-- value, here the bytes of that pointer, and the value's size as the offset.
unfoldable pub insert_operator : ℕ → Ring → Bytes → ℕ → Run Ring
insert_operator fuel c pointer size = write_value_at fuel c pointer size
