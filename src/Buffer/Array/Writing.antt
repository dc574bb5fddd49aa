-- ===== src/Buffer/Array/Writing.antt =====
-- `expand` and `write` of array.h.
use simple_network.Base.{
  ℕ, suc, ◌+◌, ◌-◌, ◌*◌, ◌%◌, ◌^◌, ◌≤◌, ◌<◌, ◌≡◌, ◌≢◌, ap, ap₂, ◌∙◌, ◌++◌, inl, inr, true, length,
  npos, add64, sub64, Bytes, slice, splice, ok, min, arith, load-ok, store-ok, if◌then◌else◌, ltb,
  lt→ltb, le→ltb, ne→==, lt-or-le, length-splice, length-slice, slice-add, slice-splice_same,
  slice-splice_other,
}
use simple_network.Buffer.Data.{get_size-make, max_size-make}
use simple_network.Buffer.Data
use simple_network.Buffer.Array.{
  Array, size, expand, get_continguious_space, put, put_moved, try_write, write_back, write,
}
use simple_network.Buffer.Array.Laws.{
  IsValid, count, contents, get_count-eq, moved, moved_lem, to_front-eq,
}

-- The size that a block grows to.
abbrev pub next_size : Array → ℕ
next_size a = min (size a * 4) a.block.max_size

-- The object after growing.
abbrev pub grown : Array → Array
grown a = record {
  block = record {
    mem = splice (Data.make a.block.max_size (next_size a)).mem 0 (contents a);
    max_size = a.block.max_size;
  };
  head = 0;
  tail = count a;
}

pub size-grown : (a : Array) → size (grown a) ≡ next_size a
size-grown a = length-splice _ 0 (contents a) ∙ get_size-make a.block.max_size (next_size a)

pub expand-eq : {a : Array} → IsValid a → size a ≢ a.block.max_size → expand a ≡ ok (grown a)
unfolding expand
expand-eq {a} v h = rw (
  ne→== (size a) a.block.max_size h,
  capped,
  get_count-eq v,
  load-ok a.block.mem a.head (count a) (omega (arith, v.tail_in, v.head_in)),
  store-ok (Data.make a.block.max_size (next_size a)).mem 0 (contents a) (
      omega (
        arith,
        length-slice a.block.mem a.head (count a),
        v.tail_in,
        v.sized,
        get_size-make a.block.max_size (next_size a),
      )),
  max_size-make,
)
  where
    capped :
        (if ltb (size a * 4 % 2 ^ 64) a.block.max_size
          then size a * 4 % 2 ^ 64
          else a.block.max_size)
        ≡ next_size a
    capped = ground (arith, v.bounded, v.sized)

-- `expand` below the largest size grows the block by four, up to the largest size, and keeps the bytes.
pub array_expand-contents :
    {a : Array}
    → IsValid a
    → size a ≢ a.block.max_size
    → (a' : Array) × (expand a ≡ ok a')
      × IsValid a'
      × (contents a' ≡ contents a)
      × (size a' ≡ min (size a * 4) a.block.max_size)
array_expand-contents {a} v h = (
  grown a,
  expand-eq v h,
  record {
    bounded = v.bounded;
    sized = omega (arith, size-grown a);
    head_in = omega arith;
    tail_in = omega (arith, size-grown a, v.tail_in, v.sized);
  },
  ap (slice (splice fresh 0 (contents a)) 0) {x = count a - 0} {y = length (contents a)}
        (omega (arith, length-slice a.block.mem a.head (count a)))
      ∙ slice-splice_same fresh 0 (contents a) (
          omega (
            arith,
            length-slice a.block.mem a.head (count a),
            v.tail_in,
            v.sized,
            get_size-make a.block.max_size (next_size a),
          )),
  size-grown a,
)
  where
    fresh : Bytes
    fresh = (Data.make a.block.max_size (next_size a)).mem

-- The bytes behind those held, where they fit behind the tail.
put_lem :
    {a : Array} (bs : Bytes)
    → IsValid a
    → a.tail + length bs ≤ size a
    → (a' : Array) × (put a bs ≡ ok (true, a')) × IsValid a' × (contents a' ≡ contents a ++ bs)
unfolding put
put_lem {a} bs v h = (
  record {
    block = record a.block { mem = splice a.block.mem a.tail bs };
    head = a.head;
    tail = a.tail + length bs;
  },
  rw (store-ok a.block.mem a.tail bs h, exact),
  record {
    bounded = v.bounded;
    sized = omega (arith, v.sized, length-splice a.block.mem a.tail bs);
    head_in = omega (arith, v.head_in);
    tail_in = omega (arith, h, length-splice a.block.mem a.tail bs);
  },
  ap (slice (splice a.block.mem a.tail bs) a.head) {x = a.tail + length bs - a.head}
        {y = count a + length bs} (omega (arith, v.head_in))
      ∙ slice-add (splice a.block.mem a.tail bs) a.head (count a) (length bs)
      ∙ ap₂ ◌++◌
          (slice-splice_other a.block.mem a.head (count a) a.tail bs
            (omega (arith, v.tail_in, v.head_in)) (inl (omega (arith, v.head_in))))
          (ap (λ p. slice (splice a.block.mem a.tail bs) p (length bs)) {x = a.head + count a}
              {y = a.tail} (omega (arith, v.head_in))
            ∙ slice-splice_same a.block.mem a.tail bs h),
)
  where
    exact : add64 a.tail (length bs) ≡ a.tail + length bs
    exact = omega (arith, v.bounded, v.sized, h)

space_behind :
    {a : Array} → IsValid a → a.tail < size a → get_continguious_space a ≡ ok (size a - a.tail, a)
unfolding get_continguious_space
space_behind {a} v h = rw (exact, ne→== (size a - a.tail) 0 (omega arith))
  where
    exact : sub64 (size a) a.tail ≡ size a - a.tail
    exact = omega (arith, v.bounded, v.sized, h)

-- `write` at -1 of bytes that fit into the block appends them, behind the tail or after moving the
-- bytes held to the start of the block, when the tail is not at the end of the block.
pub array_write-fits :
    {a : Array} (fuel : ℕ) (bs : Bytes)
    → IsValid a
    → a.tail < size a
    → count a + length bs ≤ size a
    → (a' : Array) × (write (suc fuel) a bs npos ≡ ok a')
      × IsValid a'
      × (contents a' ≡ contents a ++ bs)
unfolding write write_back try_write put_moved
array_write-fits {a} fuel bs v behind h = elim (lt-or-le (size a - a.tail) (length bs)) [
  | inl short ↦
      let (a', run, valid, held) =
        put_lem {a = moved a} bs (moved_lem v).0
          (omega (arith, length-splice a.block.mem 0 (contents a))) in
      (
        a',
        rw (
          space_behind v behind,
          lt→ltb (size a - a.tail) (length bs) short,
          ne→== a.head 0 (omega (arith, v.head_in)),
          to_front-eq v,
          space_behind (moved_lem v).0 (omega (arith, length-splice a.block.mem 0 (contents a))),
          le→ltb (size (moved a) - count a) (length bs)
              (omega (arith, length-splice a.block.mem 0 (contents a))),
          run,
        ),
        valid,
        held ∙ ap (λ c. c ++ bs) (moved_lem v).1,
      )
  | inr room ↦
      let (a', run, valid, held) = put_lem bs v (omega (arith, v.tail_in)) in
      (a', rw (space_behind v behind, le→ltb (size a - a.tail) (length bs) room, run), valid, held)
]
