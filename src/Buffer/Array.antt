-- ===== src/Buffer/Array.antt =====
-- `class array` of lib/simple/reactor/buffer/array.h: the bytes between `head_` and `tail_` of one
-- block, moved to its start where room is needed. Pointers into the block are indices.
pub mod Laws
pub mod Writing
pub mod Defects
mod Tests
use simple_network.Base.{
  ℕ, zero, suc, ◌+◌, ◌-◌, ◌*◌, ◌%◌, ◌^◌, Bool, true, false, List, ltb, leb, ◌==◌, if◌then◌else◌,
  length, add64, sub64, npos, Bytes, Run, ok, err, fault, out_of_fuel, ◌>>=◌, load, store, slice,
  read_invalid_offset, read_no_enough_space, write_invalid_offset, write_no_space, remove_no_space,
  remove_from_back_no_space, Option, none, some,
}
use simple_network.Buffer.Data.{Data, get_size}
use simple_network.Buffer.Data

pub record Array : Type 0 where
  pub block : Data
  pub head : ℕ
  pub tail : ℕ

abbrev pub size : Array → ℕ
size a = get_size a.block

unfoldable pub make : ℕ → ℕ → Array
make max_size default_size = record { block = Data.make max_size default_size; head = 0; tail = 0 }

unfoldable pub reset : Array → Array
reset a = record a { head = 0; tail = 0 }

abbrev pub get_count : Array → ℕ
get_count a = sub64 a.tail a.head

abbrev pub get_continguious_count : Array → ℕ
get_continguious_count a = get_count a

unfoldable pub get_start : Array → ℕ
get_start a = a.head

unfoldable pub get_end : Array → ℕ
get_end a = a.tail

unfoldable pub written : Array → ℕ → Array
written a count = record a { tail = add64 a.tail count }

-- The `memmove` of the bytes held to the start of the block, and the indices after it.
unfoldable pub to_front : Array → Run Array
to_front a = do
  bytes ← load a.block.mem a.head (get_count a)
  mem ← store a.block.mem 0 bytes
  ok (record { block = record a.block { mem = mem }; head = 0; tail = sub64 a.tail a.head })

unfoldable pub remove : Array → ℕ → Run Array
remove a count =
    if ltb (get_count a) count
    then err remove_no_space
    else (let a' = record a { head = add64 a.head count } in
        if a'.head == a'.tail then ok (reset a') else to_front a')

unfoldable pub remove_from_back : Array → ℕ → Run Array
remove_from_back a count =
    if ltb (get_count a) count
    then err remove_from_back_no_space
    else ok (record a { tail = sub64 a.tail count })

-- A block four times as large, but not above the largest size.
unfoldable pub expand : Array → Run Array
expand a = if size a == a.block.max_size then err write_no_space else do
  let four = size a * 4 % 2 ^ 64
  let new_size = if ltb four a.block.max_size then four else a.block.max_size
  let fresh = Data.make a.block.max_size new_size
  bytes ← load a.block.mem a.head (get_count a)
  mem ← store fresh.mem 0 bytes
  ok (record { block = record fresh { mem = mem }; head = 0; tail = sub64 a.tail a.head })

unfoldable pub get_space : ℕ → Array → Run (ℕ × Array)
get_space zero a = out_of_fuel
get_space (suc fuel) a =
    let space = sub64 (size a) (get_count a) in
    if space == 0 then (do a' ← expand a; get_space fuel a') else ok (space, a)

-- After growing, the code returns the bytes held and not the space.
unfoldable pub get_continguious_space : Array → Run (ℕ × Array)
get_continguious_space a =
    let space = sub64 (size a) a.tail in
    if space == 0 then (do a' ← expand a; ok (get_continguious_count a', a')) else ok (space, a)

unfoldable pub read : Array → ℕ → ℕ → Run (Bytes × Array)
read a count offset =
    let peek = if offset == npos then false else true in
    let from = if offset == npos then 0 else offset in
    if ltb (get_count a) (add64 from count) then err read_invalid_offset else do
      bytes ← load a.block.mem (add64 a.head from) count
      ok (bytes, if peek then a else record a { head = add64 a.head count })

-- What a `try` block leaves: whether it ran to its end, and the object at the end or at the throw.
abbrev pub caught : Run (ℕ × Array) → Array → Run (Option ℕ × Array)
caught (ok (n, a')) a = ok (some n, a')
caught (err e) a = ok (none, a)
caught fault a = fault
caught out_of_fuel a = out_of_fuel

-- The end of the `try` block of `write`.
unfoldable pub put : Array → Bytes → Run (Bool × Array)
put a bytes = do
  mem ← store a.block.mem a.tail bytes
  ok (true, record a { block = record a.block { mem = mem }; tail = add64 a.tail (length bytes) })

-- The inner `if` of the `try` block, with the space that was asked for again.
unfoldable pub put_moved : Array → Bytes → Run (Bool × Array)
put_moved a bytes = do
  a' ← if a.head == 0 then ok a else to_front a
  (space, a'') ← caught (get_continguious_space a') a'
  if_room space a''
  where
    if_room : Option ℕ → Array → Run (Bool × Array)
    if_room none b = ok (false, b)
    if_room (some n) b = if ltb n (length bytes) then ok (false, b) else put b bytes

-- The `try` block of `write`.
unfoldable pub try_write : Array → Bytes → Run (Bool × Array)
try_write a bytes = do (space, a') ← caught (get_continguious_space a) a; if_room space a'
  where
    if_room : Option ℕ → Array → Run (Bool × Array)
    if_room none b = ok (false, b)
    if_room (some n) b = if ltb n (length bytes) then put_moved b bytes else put b bytes

-- The loop of `write` at the offset -1: every throw expands, and expanding at the largest size throws.
unfoldable pub write_back : ℕ → Array → Bytes → Run Array
write_back zero a bytes = out_of_fuel
write_back (suc fuel) a bytes = do
  (done, a') ← try_write a bytes
  if done then ok a' else (do a'' ← expand a'; write_back fuel a'' bytes)

unfoldable pub write : ℕ → Array → Bytes → ℕ → Run Array
write fuel a bytes offset =
    if offset == npos
    then write_back fuel a bytes
    else if ltb (get_count a) (add64 offset (length bytes))
    then err write_invalid_offset
    else (do
      mem ← store a.block.mem (add64 a.head offset) bytes
      ok (record a { block = record a.block { mem = mem } }))

-- `write` of another array's bytes.
unfoldable pub write_array : ℕ → Array → Array → ℕ → ℕ → Run Array
write_array fuel a other offset count =
    if ltb (get_count other) (add64 offset count)
    then err read_no_enough_space
    else do bytes ← load other.block.mem (add64 other.head offset) count; write fuel a bytes npos
