-- ===== src/Buffer/Container/Queues.antt =====
-- The three containers are queues.
use simple_network.Base.{
  ℕ, zero, suc, ◌+◌, ◌≤◌, ◌<◌, ◌≡◌, ◌∙◌, sym, true, List, ◌++◌, length, npos, Bytes, ok, arith,
  refl, length-slice, drop,
}
use simple_network.Buffer.Circle.{Circle, size, write}
use simple_network.Buffer.Circle
use simple_network.Buffer.Circle.Valid
use simple_network.Buffer.Circle.Moves.{reset-IsValid, remove_lem}
use simple_network.Buffer.Circle.Reading.{read-front}
use simple_network.Buffer.Circle.Appending.{append_here}
use simple_network.Buffer.Array.{Array}
use simple_network.Buffer.Array
use simple_network.Buffer.Array.Laws as ArrayLaws
use simple_network.Buffer.Array.Laws.{array_reset-IsValid, array_read-front, remove-drop}
use simple_network.Buffer.Array.Writing.{array_write-fits}
use simple_network.Buffer.Bip.{Bip}
use simple_network.Buffer.Bip
use simple_network.Buffer.Bip.Laws as BipLaws
use simple_network.Buffer.Bip.Laws.{bip_reset-IsValid, bip_remove-drop}
use simple_network.Buffer.Bip.Reading.{bip_read-front}
use simple_network.Buffer.Bip.Writing.{room, bip_write-fits}
use simple_network.Buffer.Container.{Container, circle, array, bip, buffer}
use simple_network.Buffer.Container.Queue.{Queue, Op, replay, run, Admissible, run-refines}

-- A circle keeps one byte free, loses its way where a write goes round the end of the block, and has
-- to be larger than the bytes by two.
abbrev pub CircleRoom : Circle → ℕ → Type 0
CircleRoom c n = (Valid.count c + n < size c) × (n + 1 < size c) × (c.tail + n ≤ size c)

pub circle_write :
    (fuel : ℕ) (c : Circle) (bs : Bytes)
    → Valid.IsValid c
    → 0 < length bs
    → length bs < fuel
    → CircleRoom c (length bs)
    → (c' : Circle) × (write fuel c bs npos ≡ ok c')
      × Valid.IsValid c'
      × (Valid.contents c' ≡ Valid.contents c ++ bs)
circle_write zero c bs v some_bytes enough (room, larger, inside) = absurd (omega arith)
circle_write (suc fuel) c bs v some_bytes enough (room, larger, inside) =
    append_here fuel bs v some_bytes (omega arith) room larger inside

pub circle_remove :
    (n : ℕ) (c : Circle)
    → Valid.IsValid c
    → n ≤ length (Valid.contents c)
    → (c' : Circle) × (circle.remove c n ≡ ok c')
      × Valid.IsValid c'
      × (Valid.contents c' ≡ drop n (Valid.contents c))
circle_remove n c v h =
    let (valid, rest) = remove_lem n v (omega (arith, Valid.length-contents c)) in
    (Circle.remove c n, refl, valid, rest)

abbrev pub circle_queue : Queue circle
circle_queue = record {
  IsValid = Valid.IsValid;
  contents = Valid.contents;
  Room = CircleRoom;
  count_law = λ c v. Valid.get_count-eq v ∙ sym (Valid.length-contents c);
  reset_law = λ c v. reset-IsValid v;
  read_law =
      λ fuel n c v f h. read-front fuel n true v f (omega (arith, h, Valid.length-contents c));
  remove_law = circle_remove;
  write_law = circle_write;
}

abbrev pub ArrayRoom : Array → ℕ → Type 0
ArrayRoom a n = (a.tail < Array.size a) × (ArrayLaws.count a + n ≤ Array.size a)

pub length-array : (a : Array) → length (ArrayLaws.contents a) ≡ ArrayLaws.count a
length-array a = length-slice a.block.mem a.head (ArrayLaws.count a)

pub array_write :
    (fuel : ℕ) (a : Array) (bs : Bytes)
    → ArrayLaws.IsValid a
    → 0 < length bs
    → length bs < fuel
    → ArrayRoom a (length bs)
    → (a' : Array) × (Array.write fuel a bs npos ≡ ok a')
      × ArrayLaws.IsValid a'
      × (ArrayLaws.contents a' ≡ ArrayLaws.contents a ++ bs)
array_write zero a bs v some_bytes enough (behind, fits) = absurd (omega arith)
array_write (suc fuel) a bs v some_bytes enough (behind, fits) =
    array_write-fits fuel bs v behind fits

abbrev pub array_queue : Queue array
array_queue = record {
  IsValid = ArrayLaws.IsValid;
  contents = ArrayLaws.contents;
  Room = ArrayRoom;
  count_law = λ a v. ArrayLaws.get_count-eq v ∙ sym (length-array a);
  reset_law = λ a v. array_reset-IsValid v;
  read_law = λ fuel n a v f h. array_read-front n v (omega (arith, h, length-array a));
  remove_law = λ n a v h. remove-drop n v (omega (arith, h, length-array a));
  write_law = array_write;
}

pub bip_write :
    (fuel : ℕ) (b : Bip) (bs : Bytes)
    → BipLaws.IsValid b
    → 0 < length bs
    → length bs < fuel
    → length bs ≤ room b
    → (b' : Bip) × (Bip.write fuel b bs npos ≡ ok b')
      × BipLaws.IsValid b'
      × (BipLaws.contents b' ≡ BipLaws.contents b ++ bs)
bip_write zero b bs v some_bytes enough fits = absurd (omega arith)
bip_write (suc fuel) b bs v some_bytes enough fits = bip_write-fits fuel bs v some_bytes fits

abbrev pub bip_queue : Queue bip
bip_queue = record {
  IsValid = BipLaws.IsValid;
  contents = BipLaws.contents;
  Room = λ b n. n ≤ room b;
  count_law = λ b v. BipLaws.get_count-eq v ∙ sym (BipLaws.length-contents v);
  reset_law = λ b v. bip_reset-IsValid v;
  read_law = λ fuel n b v f h. bip_read-front n v h;
  remove_law = λ n b v h. bip_remove-drop n v h;
  write_law = bip_write;
}

-- What the calls of `ops` on a buffer of `c` give and leave is what they give and leave on a list of
-- bytes.
abbrev pub Agrees : {C : Type 0} (i : Container C) → Queue i → ℕ → List Op → C → Type 0
Agrees {C} i q fuel ops c =
    (c' : C) × (run (buffer i) fuel ops c ≡ ok ((replay ops (q.contents c)).0, c'))
    × q.IsValid c'
    × (q.contents c' ≡ (replay ops (q.contents c)).1)

-- A buffer of a circle, an array or a bip implements a queue of bytes: a sequence of writes of at least
-- one byte at the end, reads from the front, removals and resets, on a valid buffer, with fuel above
-- the numbers of bytes, with room for each write and no more taken than is held, ends, returns what the
-- same calls on a list of bytes return, and leaves a valid buffer that holds what is left of the list.
pub containers-Refine :
    (fuel : ℕ) (ops : List Op) (c : Circle) (a : Array) (b : Bip)
    → Valid.IsValid c
    → ArrayLaws.IsValid a
    → BipLaws.IsValid b
    → Admissible circle circle_queue fuel ops c
    → Admissible array array_queue fuel ops a
    → Admissible bip bip_queue fuel ops b
    → Agrees circle circle_queue fuel ops c
      × Agrees array array_queue fuel ops a
      × Agrees bip bip_queue fuel ops b
containers-Refine fuel ops c a b vc va vb in_c in_a in_b = (
  run-refines circle circle_queue fuel ops c vc in_c,
  run-refines array array_queue fuel ops a va in_a,
  run-refines bip bip_queue fuel ops b vb in_b,
)
