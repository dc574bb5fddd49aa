-- ===== src/Buffer/Bip.antt =====
-- `class bip` of lib/simple/reactor/buffer/bip.h: a block with two regions of bytes, A and, before it,
-- B. Pointers into the block are indices, and a null pointer is `none`.
pub mod Laws
pub mod Reading
pub mod Writing
pub mod Defects
mod Tests
use simple_network.Base.{
  ℕ, zero, suc, ◌-◌, ◌*◌, ◌%◌, ◌^◌, min, max, Bool, true, false, ◌++◌, ltb, ◌==◌, not,
  if◌then◌else◌, length, take, drop, add64, sub64, npos, Bytes, Run, ok, err, fault, out_of_fuel,
  ◌>>=◌, load, store, read_invalid_offset, read_no_enough_space, write_invalid_offset,
  write_no_space, remove_no_space, Option, none, some, [],
}
use simple_network.Buffer.Data.{Data, get_size}
use simple_network.Buffer.Data

pub record Bip : Type 0 where
  pub block : Data
  pub region_a_start : ℕ
  pub region_a_count : ℕ
  pub region_b_start : Option ℕ
  pub region_b_count : ℕ

abbrev pub size : Bip → ℕ
size b = get_size b.block

abbrev pub is_set : Option ℕ → Bool
is_set none = false
is_set (some p) = true

unfoldable pub reset : Bip → Bip
reset b = record {
  block = b.block;
  region_a_start = 0;
  region_a_count = 0;
  region_b_start = none;
  region_b_count = 0;
}

unfoldable pub make : ℕ → ℕ → Bip
make max_size default_size = record {
  block = Data.make max_size default_size;
  region_a_start = 0;
  region_a_count = 0;
  region_b_start = none;
  region_b_count = 0;
}

abbrev pub get_count : Bip → ℕ
get_count b = add64 b.region_a_count b.region_b_count

abbrev pub get_a_space : Bip → ℕ
get_a_space b = sub64 (sub64 (size b) b.region_a_start) b.region_a_count

abbrev pub b_space_at : Option ℕ → ℕ → ℕ → ℕ
b_space_at none a n = 0
b_space_at (some p) a n = sub64 (sub64 a p) n

abbrev pub get_b_space : Bip → ℕ
get_b_space b = b_space_at b.region_b_start b.region_a_start b.region_b_count

abbrev pub get_space_before_a : Bip → ℕ
get_space_before_a b = b.region_a_start

abbrev pub get_space_after_a : Bip → ℕ
get_space_after_a b = sub64 (sub64 (size b) b.region_a_start) b.region_a_count

abbrev pub get_continguious_count : Bip → ℕ
get_continguious_count b = if b.region_a_count == 0 then b.region_b_count else b.region_a_count

-- A null pointer that is read or written through is a fault.
abbrev pub load_at : Bytes → Option ℕ → ℕ → Run Bytes
load_at mem none n = fault
load_at mem (some p) n = load mem p n

abbrev pub store_at : Bytes → Option ℕ → ℕ → Bytes → Run Bytes
store_at mem none k bytes = fault
store_at mem (some p) k bytes = store mem (add64 p k) bytes

abbrev pub shift : Option ℕ → ℕ → Option ℕ
shift none n = none
shift (some p) n = some (add64 p n)

-- `region_a_start_ = region_b_start_`, of a pointer that is not null.
abbrev pub start_or : Option ℕ → ℕ → ℕ
start_or none d = d
start_or (some p) d = p

-- The regions in one piece at the start of a larger block.
unfoldable pub expand : Bip → Run Bip
expand b = if size b == b.block.max_size then err write_no_space else do
  let four = size b * 4 % 2 ^ 64
  let new_size = if ltb four b.block.max_size then four else b.block.max_size
  let fresh = Data.make b.block.max_size new_size
  mem ←
      if b.region_a_count == 0
      then ok fresh.mem
      else (do bytes ← load b.block.mem b.region_a_start b.region_a_count; store fresh.mem 0 bytes)
  mem' ← if sub64 (get_count b) b.region_a_count == 0 then ok mem else (do
    bytes ← load_at b.block.mem b.region_b_start b.region_b_count
    store mem b.region_a_count bytes)
  ok (record {
    block = record fresh { mem = mem' };
    region_a_start = 0;
    region_a_count = get_count b;
    region_b_start = none;
    region_b_count = 0;
  })

unfoldable pub get_space : ℕ → Bip → Run (ℕ × Bip)
get_space zero b = out_of_fuel
get_space (suc fuel) b =
    let space = sub64 (size b) (get_count b) in
    if space == 0 then (do b' ← expand b; get_space fuel b') else ok (space, b)

-- Without an `else`, the space behind A is returned even where B has just been opened.
unfoldable pub get_continguious_space : ℕ → Bip → Run (ℕ × Bip)
get_continguious_space zero b = out_of_fuel
get_continguious_space (suc fuel) b =
    let before = ltb (get_a_space b) (get_space_before_a b) in
    let b' =
      if b.region_b_count == 0
      then (if before then record b { region_b_start = some 0 } else b)
      else b in
    let space = if b.region_b_count == 0 then get_a_space b' else get_b_space b in
    if space == 0 then (do b'' ← expand b'; get_continguious_space fuel b'') else ok (space, b')

unfoldable pub get_start : Bip → Option ℕ
get_start b = if b.region_a_count == 0 then b.region_b_start else some b.region_a_start

-- Where the next byte is written.
unfoldable pub get_end : Bip → ℕ
get_end b =
    if is_set b.region_b_start
    then add64 (start_or b.region_b_start 0) b.region_b_count
    else add64 b.region_a_start b.region_a_count

unfoldable pub written : Bip → ℕ → Bip
written b count =
    if is_set b.region_b_start
    then record b { region_b_count = add64 b.region_b_count count }
    else record b { region_a_count = add64 b.region_a_count count }

-- An empty region A takes over region B.
unfoldable pub promote : Bip → Bip
promote b =
    if b.region_a_count == 0
    then (record b {
      region_a_start =
          if b.region_b_count == 0 then 0 else start_or b.region_b_start b.region_a_start;
      region_a_count = b.region_b_count;
      region_b_start = none;
      region_b_count = 0;
    })
    else b

-- The first bytes leave A, then B.
unfoldable pub take_out : Bip → ℕ → ℕ → Bip
take_out b from_a from_b = promote (record b {
  region_a_start = add64 b.region_a_start from_a;
  region_a_count = sub64 b.region_a_count from_a;
  region_b_start = if from_b == 0 then b.region_b_start else shift b.region_b_start from_b;
  region_b_count = sub64 b.region_b_count from_b;
})

unfoldable pub remove : Bip → ℕ → Run Bip
remove b count =
    if ltb (get_count b) count
    then err remove_no_space
    else (let from_a = min b.region_a_count count in ok (take_out b from_a (count - from_a)))

-- Of more bytes than are held, nothing is removed.
unfoldable pub remove_from_back : Bip → ℕ → Bip
remove_from_back b count =
    if ltb (get_count b) count
    then b
    else (let from_b = min b.region_b_count count in
        let from_a = min b.region_a_count (count - from_b) in
        let b' = record b {
          region_b_count = b.region_b_count - from_b;
          region_a_count = b.region_a_count - from_a;
        } in
        if b'.region_b_count == 0
        then (record b' {
          region_b_start = none;
          region_a_start = if b'.region_a_count == 0 then 0 else b'.region_a_start;
        })
        else b')

-- Inside B the code does not add the offset that is left.
unfoldable pub read : Bip → ℕ → ℕ → Run (Bytes × Bip)
read b count offset =
    let peek = not (offset == npos) in
    let from = if offset == npos then 0 else offset in
    if ltb (get_count b) (add64 from count) then err read_invalid_offset else do
      let skip_a = if b.region_a_count == 0 then true else ltb b.region_a_count from
      let from_a = if skip_a then 0 else min (b.region_a_count - from) count
      front ← if skip_a then ok [] else load b.block.mem (add64 b.region_a_start from) from_a
      let from_b = count - from_a
      back ← if from_b == 0 then ok [] else load_at b.block.mem b.region_b_start from_b
      ok (front ++ back, if peek then b else take_out b from_a from_b)

-- The end of `write` behind region A, where B is open: whether it is done, or has thrown.
unfoldable pub put_b : Bip → Bytes → ℕ → ℕ → Run (Bool × Bip)
put_b b bytes offset remain_count =
    let count = length bytes in
    let region_b_count =
      max b.region_b_count (add64 (sub64 offset b.region_a_count) remain_count) in
    let place = if remain_count == count then sub64 offset b.region_a_count else 0 in
    if ltb (get_b_space b) (region_b_count - b.region_b_count) then ok (false, b) else do
      mem ← store_at b.block.mem b.region_b_start place (drop (count - remain_count) bytes)
      ok (true, record b { block = record b.block { mem = mem }; region_b_count = region_b_count })

-- The same, where B is closed: behind A, or in front of it.
unfoldable pub put_a : Bip → Bytes → ℕ → Run (Bool × Bip)
put_a b bytes remain_count =
    let rest = drop (length bytes - remain_count) bytes in
    if ltb (get_space_before_a b) (get_a_space b)
    then (if ltb (get_a_space b) remain_count then ok (false, b) else do
      mem ← store b.block.mem (add64 b.region_a_start b.region_a_count) rest
      ok (
        true,
        record b {
          block = record b.block { mem = mem };
          region_a_count = add64 b.region_a_count remain_count;
        },
      ))
    else (if ltb (get_space_before_a b) remain_count then ok (false, b) else do
      mem ← store b.block.mem 0 (take remain_count bytes)
      ok (
        true,
        record b {
          block = record b.block { mem = mem };
          region_b_start = some 0;
          region_b_count = add64 b.region_b_count remain_count;
        },
      ))

-- One round of the loop of `write`.
unfoldable pub write_step : Bip → Bytes → ℕ → Run (Bool × Bip)
write_step b bytes offset = do
  let region_a_count = min (b.region_a_count - offset) (length bytes)
  mem ←
      if ltb offset b.region_a_count
      then store b.block.mem (add64 b.region_a_start offset) (take region_a_count bytes)
      else ok b.block.mem
  let remain_count = length bytes - region_a_count
  let b' = record b { block = record b.block { mem = mem } }
  if remain_count == 0
      then ok (true, b')
      else if is_set b.region_b_start
      then put_b b' bytes offset remain_count
      else put_a b' bytes remain_count

-- Every throw expands the block, and expanding at the largest size throws.
unfoldable pub write_loop : ℕ → Bip → Bytes → ℕ → Run Bip
write_loop zero b bytes offset = out_of_fuel
write_loop (suc fuel) b bytes offset = do
  (done, b') ← write_step b bytes offset
  if done then ok b' else (do b'' ← expand b'; write_loop fuel b'' bytes offset)

unfoldable pub write : ℕ → Bip → Bytes → ℕ → Run Bip
write fuel b bytes offset =
    if offset == npos
    then write_loop fuel b bytes (get_count b)
    else if ltb (get_count b) (add64 offset (length bytes))
    then err write_invalid_offset
    else write_loop fuel b bytes offset

-- `write` of another buffer's bytes, region by region.
unfoldable pub write_bip : ℕ → Bip → Bip → ℕ → ℕ → Run Bip
write_bip fuel b other offset count =
    if ltb (get_count other) (add64 offset count) then err read_no_enough_space else do
      let skip_a = if other.region_a_count == 0 then true else ltb other.region_a_count offset
      let from_a = if skip_a then 0 else min (other.region_a_count - offset) count
      b' ← if skip_a then ok b else (do
        bytes ← load other.block.mem (add64 other.region_a_start offset) from_a
        write fuel b bytes npos)
      let remain_count = count - from_a
      let place = if skip_a then offset - other.region_a_count else 0
      if remain_count == 0 then ok b' else (do
        bytes ← load_at other.block.mem (shift other.region_b_start place) remain_count
        write fuel b' bytes npos)
