-- ===== src/Buffer/Array/Defects.antt =====
-- Where `write` of array.h goes past its block: growing that the largest size cuts short.
use simple_network.Base.{
  ℕ, suc, ◌+◌, ◌≤◌, ◌<◌, ◌≡◌, length, npos, sub64, Bytes, fault, arith, store-fault, le→ltb, eq→==,
}
use simple_network.Buffer.Array.{
  Array, size, get_continguious_space, put, try_write, write_back, write,
}
use simple_network.Buffer.Array.Laws.{IsValid, count}
use simple_network.Buffer.Array.Writing.{grown, size-grown, expand-eq}

-- A write at the end of an array whose bytes reach the end of its block: where the largest size has no
-- room for so many bytes, and there are at most as many as are held, the block grows to the largest size
-- and the bytes are copied past its end.
pub array_write-past_end :
    {a : Array} (fuel : ℕ) (bs : Bytes)
    → IsValid a
    → a.tail ≡ size a
    → size a < a.block.max_size
    → length bs ≤ count a
    → a.block.max_size < count a + length bs
    → write (suc fuel) a bs npos ≡ fault
unfolding write write_back try_write get_continguious_space put
array_write-past_end {a} fuel bs v full below few past = rw (
  eq→== (sub64 (size a) a.tail) 0 (omega (arith, v.bounded, v.sized)),
  expand-eq v (omega arith),
  le→ltb (sub64 (count a) 0) (length bs) (omega (arith, v.bounded, v.sized)),
  store-fault (grown a).block.mem (count a) bs (omega (arith, size-grown a)),
)
