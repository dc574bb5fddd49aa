-- ===== src/Packet.antt =====
-- lib/simple/reactor/packet.h: `reader` and `writer` of length-prefixed packets over a shared buffer.
-- The buffer is passed in and handed back; a `uint32` in memory is four bytes.
pub mod Frames
pub mod Writing
pub mod Closing
pub mod Reading
pub mod Forwarding
pub mod Nesting
mod Tests
use simple_network.Base.{
  ℕ, ◌+◌, ◌-◌, ◌%◌, ◌^◌, Bool, true, false, Option, none, some, List, [], ◌∷◌, ltb, ◌==◌,
  if◌then◌else◌, length, add32, add64, sub64, open_length, word_size, to_bytes, of_bytes, Bytes,
  Run, ok, ◌>>=◌,
}
use simple_network.Buffer.{read_value_at, write_value, write_value_at}
use simple_network.Buffer.Circle.{Circle, get_count, remove_from_back, write_circle}

-- `head_`, `tail_` and `length_` of a `reader`, and of a `writer` without its parent.
pub record Reader : Type 0 where
  pub head : ℕ
  pub tail : ℕ
  pub size : ℕ

pub record Writer : Type 0 where
  pub head : ℕ
  pub size : ℕ

-- `length()` of both.
unfoldable pub reader_length : Reader → ℕ
reader_length r = r.size

unfoldable pub writer_length : Writer → ℕ
writer_length writer = writer.size

-- The writer's constructor that copies; the parent stays with whoever holds it.
unfoldable pub copy_writer : Writer → Writer
copy_writer writer = record { head = writer.head; size = writer.size }

-- A reader of the packet at the start of the buffer.
unfoldable pub open_reader : ℕ → Circle → Run (Reader × Circle)
open_reader fuel c = do
  (bytes, c') ← read_value_at fuel c word_size 0
  ok (record { head = 0; tail = word_size; size = of_bytes bytes }, c')

-- A reader of a packet inside another: the inner reader, and the outer one moved past it.
unfoldable pub open_inner_reader : ℕ → Circle → Reader → Run (Reader × Reader × Circle)
open_inner_reader fuel c outer = do
  (bytes, c') ← read_value_at fuel c word_size outer.tail
  let inner = of_bytes bytes
  ok (
    record { head = outer.tail; tail = add32 outer.tail word_size; size = inner },
    record outer { tail = add32 outer.tail (add64 inner word_size) },
    c',
  )

-- `reader >> value`, for a value of `count` bytes. The reader moves on by as much as the buffer's
-- count has changed.
unfoldable pub extract : ℕ → Circle → Reader → ℕ → Run (Bytes × Reader × Circle)
extract fuel c r count = do
  let old_count = get_count c
  (bytes, c') ← read_value_at fuel c count r.tail
  ok (bytes, record r { tail = add32 r.tail (sub64 (get_count c') old_count) }, c')

-- A writer at the end of the buffer: it puts a length that says "not finished" there.
unfoldable pub open_writer : ℕ → Circle → Run (Writer × Circle)
open_writer fuel c = do
  let head = get_count c % 2 ^ 32
  c' ← write_value fuel c (to_bytes open_length)
  ok (record { head = head; size = 0 }, c')

-- A writer of a packet inside the parent's.
unfoldable pub open_inner_writer : ℕ → Circle → Writer → Run (Writer × Circle)
open_inner_writer fuel c parent = do
  let head = add32 (add32 parent.head parent.size) word_size
  c' ← write_value fuel c (to_bytes open_length)
  ok (record { head = head; size = 0 }, c')

-- `writer << value`.
unfoldable pub insert : ℕ → Circle → Writer → Bytes → Run (Writer × Circle)
insert fuel c w value = do
  let old_count = get_count c
  c' ← write_value fuel c value
  ok (record w { size = add32 w.size (sub64 (get_count c') old_count) }, c')

-- `writer << reader`, with the reader's buffer: what is left of the packet that it reads.
unfoldable pub insert_reader : ℕ → Circle → Writer → Circle → Reader → Run (Writer × Circle)
insert_reader fuel c w source r = do
  let count = sub64 (add64 r.size word_size) r.tail
  c' ← write_circle fuel c source r.tail count
  ok (record w { size = add32 w.size count }, c')

-- A parent's packet grows by the whole packet inside it.
abbrev pub grow_parent : ℕ → Option Writer → Option Writer
grow_parent n none = none
grow_parent n (some p) = some (record p { size = add32 p.size (add64 n word_size) })

-- `flush` writes the length at the head, and tells the parent.
unfoldable pub flush : ℕ → Circle → Writer → Option Writer → Run (Option Writer × Circle)
flush fuel c w parent = do
  c' ← write_value_at fuel c (to_bytes w.size) w.head
  ok (grow_parent w.size parent, c')

-- The destructor takes an unfinished packet off the buffer.
unfoldable pub close_writer : ℕ → Circle → Writer → Run Circle
close_writer fuel c w =
    if ltb w.head (get_count c)
    then (do
      (bytes, c') ← read_value_at fuel c word_size w.head
      ok (
          if of_bytes bytes == open_length
          then remove_from_back c' (add64 word_size w.size)
          else c'))
    else ok c

-- `writer << v1 << v2 << …`
unfoldable pub insert_all : ℕ → Circle → Writer → List Bytes → Run (Writer × Circle)
insert_all fuel c w [] = ok (w, c)
insert_all fuel c w (value ∷ values) = do
  (w', c') ← insert fuel c w value
  insert_all fuel c' w' values
