-- ===== src/Buffer/Circle.antt =====
-- `class circle` of lib/simple/reactor/buffer/circle.h, a growing ring of bytes between `head_` and
-- `tail_`. A member function that changes the object returns the new one; pointers into the block
-- are indices. The functions that call themselves take fuel.
pub mod Index
pub mod Valid
pub mod Moves
pub mod Placing
pub mod Reading
pub mod Growing
pub mod Regrowing
pub mod Appending
pub mod Filling
pub mod Defects
mod Tests
pub mod Writing
use simple_network.Base.{
  ℕ, zero, suc, ◌+◌, ◌-◌, ◌*◌, ◌%◌, ◌^◌, min, bit_and, Bool, true, false, List, [], ◌++◌, ltb, leb,
  ◌==◌, if◌then◌else◌, length, take, drop, add64, sub64, npos, to_int, int_lt, int_le, Bytes, Run,
  ok, err, out_of_fuel, ◌>>=◌, load, store, read_invalid_offset, write_invalid_offset,
  write_no_space,
}
use simple_network.Buffer.Data.{Data, get_size}
use simple_network.Buffer.Data

pub record Circle : Type 0 where
  pub block : Data
  pub head : ℕ
  pub tail : ℕ

abbrev pub size : Circle → ℕ
size c = get_size c.block

-- The three functions of two indices and a size; the size is meant to be a power of two.
unfoldable pub get_count_at : ℕ → ℕ → ℕ → ℕ
get_count_at head tail size = bit_and (sub64 tail head) (sub64 size 1)

unfoldable pub get_continguious_count_at : ℕ → ℕ → ℕ → ℕ
get_continguious_count_at head tail size =
    let end = to_int (sub64 size head) in
    let n = to_int (bit_and (add64 tail end) (sub64 size 1)) in if int_lt n end then n else end

unfoldable pub get_continguious_space_at : ℕ → ℕ → ℕ → ℕ
get_continguious_space_at head tail size =
    let end = to_int (sub64 (sub64 size 1) tail) in
    let n = to_int (bit_and (add64 end head) (sub64 size 1)) in
    if int_le n end then n else to_int (end + 1)

unfoldable pub make : ℕ → ℕ → Circle
make max_size default_size = record { block = Data.make max_size default_size; head = 0; tail = 0 }

unfoldable pub reset : Circle → Circle
reset c = record c { head = 0; tail = 0 }

unfoldable pub get_count : Circle → ℕ
get_count c = get_count_at c.head c.tail (size c)

unfoldable pub get_continguious_count : Circle → ℕ
get_continguious_count c = get_continguious_count_at c.head c.tail (size c)

-- The places of the first byte held and of the first free one.
unfoldable pub get_start : Circle → ℕ
get_start c = c.head

unfoldable pub get_end : Circle → ℕ
get_end c = c.tail

unfoldable pub written : Circle → ℕ → Circle
written c count = record c { tail = add64 c.tail count % size c }

unfoldable pub remove : Circle → ℕ → Circle
remove c count = record c { head = add64 c.head count % size c }

-- The test `tail_ < 0` on a `size_t` never holds.
unfoldable pub remove_from_back : Circle → ℕ → Circle
remove_from_back c count =
    let tail = sub64 c.tail count in
    record c { tail = if ltb tail 0 then add64 tail (size c) else tail }

-- The block four times as large, with the bytes moved to its start.
unfoldable pub expand : Circle → Run Circle
expand c =
    let new_size = size c * 4 % 2 ^ 64 in
    if leb c.block.max_size new_size then err write_no_space else do
      let count = get_count c
      let read_count = min (get_continguious_count c) count
      let fresh = Data.make c.block.max_size new_size
      front ← load c.block.mem c.head read_count
      mem ← store fresh.mem 0 front
      let remain_count = count - read_count
      mem' ← if remain_count == 0 then ok mem else do
        back ← load c.block.mem (add64 c.head read_count % size c) remain_count
        store mem read_count back
      ok (record { block = record fresh { mem = mem' }; head = 0; tail = count })

-- A request for space expands the block when there is none, and asks again.
unfoldable pub get_space : ℕ → Circle → Run (ℕ × Circle)
get_space zero c = out_of_fuel
get_space (suc fuel) c =
    let space = get_count_at (add64 c.tail 1) c.head (size c) in
    if space == 0 then (do c' ← expand c; get_space fuel c') else ok (space, c)

unfoldable pub get_continguious_space : ℕ → Circle → Run (ℕ × Circle)
get_continguious_space zero c = out_of_fuel
get_continguious_space (suc fuel) c =
    let space = get_continguious_space_at c.head c.tail (size c) in
    if space == 0 then (do c' ← expand c; get_continguious_space fuel c') else ok (space, c)

-- One call of `read`: the bytes copied, and the buffer after it. `again` is the recursive call.
unfoldable pub read_step :
    (Circle → ℕ → ℕ → Bool → Run (Bytes × Circle)) → Circle → ℕ → ℕ → Bool → Run (Bytes × Circle)
read_step again c count offset peek =
    if ltb (get_count c) (add64 offset count) then err read_invalid_offset else do
      let head = add64 c.head offset % size c
      let read_count = min (get_continguious_count_at head c.tail (size c)) count
      bytes ← load c.block.mem head read_count
      let c' = if peek then c else record c { head = add64 c.head read_count % size c }
      let offset' = if peek then add64 offset read_count else offset
      let remain_count = count - read_count
      if remain_count == 0
          then ok (bytes, c')
          else do (rest, c'') ← again c' remain_count offset' peek; ok (bytes ++ rest, c'')

-- The offset -1 asks for the first bytes, and takes them out.
unfoldable pub read : ℕ → Circle → ℕ → ℕ → Bool → Run (Bytes × Circle)
read zero c count offset peek = out_of_fuel
read (suc fuel) c count offset peek =
    if offset == npos
    then read_step (λ c n o p. read fuel c n o p) c count 0 false
    else read_step (λ c n o p. read fuel c n o p) c count offset peek

-- The copying part of one call of `write`, at an offset.
unfoldable pub write_at : (Circle → Bytes → ℕ → Run Circle) → Circle → Bytes → ℕ → Run Circle
write_at again c bytes offset = do
  let head = add64 c.head offset % size c
  let write_count = min (get_continguious_space_at head c.tail (size c)) (length bytes)
  mem ← store c.block.mem head (take write_count bytes)
  let c' = record c { block = record c.block { mem = mem } }
  if length bytes - write_count == 0
      then ok c'
      else again c' (drop write_count bytes) (add64 offset write_count)

-- One call of `write` at the offset -1: at the end, growing the buffer where it is too small.
unfoldable pub write_back :
    (Circle → Run (ℕ × Circle)) → (Circle → Bytes → ℕ → Run Circle) → Circle → Bytes → Run Circle
write_back space again c bytes = do
  (n, c') ← space c
  if ltb n (length bytes)
      then (do c'' ← expand c'; again c'' bytes npos)
      else write_at again (written c' (length bytes)) bytes (get_count c')

unfoldable pub write : ℕ → Circle → Bytes → ℕ → Run Circle
write zero c bytes offset = out_of_fuel
write (suc fuel) c bytes offset =
    if offset == npos
    then write_back (λ c. get_space (suc fuel) c) (λ c bs o. write fuel c bs o) c bytes
    else if ltb (get_count c) (add64 offset (length bytes))
    then err write_invalid_offset
    else write_at (λ c bs o. write fuel c bs o) c bytes offset

-- `write` of another circle's bytes: each contiguous run of them is appended.
unfoldable pub write_circle : ℕ → Circle → Circle → ℕ → ℕ → Run Circle
write_circle zero c other offset count = out_of_fuel
write_circle (suc fuel) c other offset count = do
  let head = add64 other.head offset % size other
  let read_count = min (get_continguious_count_at head other.tail (size other)) count
  if read_count == 0 then ok c else do
    bytes ← load other.block.mem head read_count
    c' ← write fuel c bytes npos
    if count - read_count == 0
        then ok c'
        else write_circle fuel c' other (add64 offset read_count) (count - read_count)
