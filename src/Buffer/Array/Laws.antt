-- ===== src/Buffer/Array/Laws.antt =====
-- What the operations of array.h do to the bytes held.
use simple_network.Base.{
  slice-none, [], ℕ, ◌+◌, ◌-◌, ◌^◌, ◌≤◌, ◌≡◌, sym, ap, ◌∙◌, inl, inr, take, drop, length, npos,
  add64, sub64, Bytes, slice, splice, ok, arith, load-ok, store-ok, le→ltb, eq→==, ne→==, eq-or-ne,
  length-splice, length-slice, slice-empty, slice-none, take-slice, drop-slice, slice-splice_same,
}
use simple_network.Buffer.Data.{get_size-make, max_size-make}
use simple_network.Buffer.Array.{
  Array, size, make, get_count, reset, to_front, remove, remove_from_back, read,
}

pub record IsValid (a : Array) : Type 0 where
  pub bounded : a.block.max_size ≤ 2 ^ 60
  pub sized : size a ≤ a.block.max_size
  pub head_in : a.head ≤ a.tail
  pub tail_in : a.tail ≤ size a

abbrev pub count : Array → ℕ
count a = a.tail - a.head

-- The bytes held.
abbrev pub contents : Array → Bytes
contents a = slice a.block.mem a.head (count a)

pub get_count-eq : {a : Array} → IsValid a → get_count a ≡ count a
get_count-eq v = omega (arith, v.bounded, v.sized, v.head_in, v.tail_in)

-- A new array is valid and empty.
pub array_make-IsValid : (m n : ℕ) → n ≤ m → m ≤ 2 ^ 60 → IsValid (make m n)
unfolding make
array_make-IsValid m n h b = record {
  bounded = rw max_size-make b;
  sized = rw (max_size-make, get_size-make) h;
  head_in = omega arith;
  tail_in = omega arith;
}

-- The object after the bytes have moved to the start.
abbrev pub moved : Array → Array
moved a = record {
  block = record a.block { mem = splice a.block.mem 0 (contents a) };
  head = 0;
  tail = count a;
}

pub moved_lem : {a : Array} → IsValid a → IsValid (moved a) × (contents (moved a) ≡ contents a)
moved_lem {a} v = (
  record {
    bounded = v.bounded;
    sized = rw (length-splice a.block.mem 0 (contents a)) v.sized;
    head_in = omega arith;
    tail_in = omega (arith, v.tail_in, v.head_in, length-splice a.block.mem 0 (contents a));
  },
  ap (slice (splice a.block.mem 0 (contents a)) 0) {x = count a - 0} {y = length (contents a)}
        (omega (arith, length-slice a.block.mem a.head (count a)))
      ∙ slice-splice_same a.block.mem 0 (contents a)
          (omega (arith, length-slice a.block.mem a.head (count a), v.tail_in)),
)

pub to_front-eq : {a : Array} → IsValid a → to_front a ≡ ok (moved a)
unfolding to_front
to_front-eq {a} v = rw (
  get_count-eq v,
  load-ok a.block.mem a.head (count a) (omega (arith, v.tail_in, v.head_in)),
  store-ok a.block.mem 0 (contents a)
      (omega (arith, length-slice a.block.mem a.head (count a), v.tail_in)),
)

-- `remove` of at most the bytes held drops them from the front.
pub remove-drop :
    {a : Array} (n : ℕ)
    → IsValid a
    → n ≤ count a
    → (a' : Array) × (remove a n ≡ ok a') × IsValid a' × (contents a' ≡ drop n (contents a))
unfolding remove reset
remove-drop {a} n v h = elim (eq-or-ne (a.head + n) a.tail) [
  | inl e ↦ (
    reset b,
    rw (get_count-eq v, le→ltb (count a) n h, exact, eq→== _ _ e),
    record { bounded = v.bounded; sized = v.sized; head_in = omega arith; tail_in = omega arith },
    ap (slice a.block.mem 0) {x = 0 - 0} {y = 0} (omega arith) ∙ none_left e,
  )
  | inr e ↦ (
    moved b,
    rw (get_count-eq v, le→ltb (count a) n h, exact, ne→== _ _ e, to_front-eq valid),
    (moved_lem valid).0,
    (moved_lem valid).1 ∙ rest,
  )
]
  where
    b : Array
    b = record a { head = a.head + n }

    exact : add64 a.head n ≡ a.head + n
    exact = omega (arith, v.bounded, v.sized, v.tail_in, v.head_in)

    valid : IsValid b
    valid = record {
      bounded = v.bounded;
      sized = v.sized;
      head_in = omega (arith, v.head_in);
      tail_in = v.tail_in;
    }

    rest : contents b ≡ drop n (contents a)
    rest =
        ap (slice a.block.mem (a.head + n)) {x = a.tail - (a.head + n)} {y = count a - n}
          (omega arith)
        ∙ sym (drop-slice a.block.mem a.head n (count a) h)

    none_left : a.head + n ≡ a.tail → slice a.block.mem 0 0 ≡ drop n (contents a)
    none_left e =
        slice-empty a.block.mem 0 (a.head + n)
        ∙ ap (slice a.block.mem (a.head + n)) {x = 0} {y = a.tail - (a.head + n)} (omega arith)
        ∙ rest

-- `remove_from_back` of at most the bytes held keeps the first ones.
pub remove_from_back-take :
    {a : Array} (n : ℕ)
    → IsValid a
    → n ≤ count a
    → (a' : Array) × (remove_from_back a n ≡ ok a')
      × IsValid a'
      × (contents a' ≡ take (count a - n) (contents a))
unfolding remove_from_back
remove_from_back-take {a} n v h = (
  record a { tail = a.tail - n },
  rw (get_count-eq v, le→ltb (count a) n h) (ap (λ t. ok (record a { tail = t })) exact),
  record {
    bounded = v.bounded;
    sized = v.sized;
    head_in = omega (arith, v.head_in);
    tail_in = omega (arith, v.tail_in);
  },
  ap (slice a.block.mem a.head) {x = a.tail - n - a.head} {y = count a - n} (omega arith)
      ∙ sym (take-slice a.block.mem a.head (count a - n) (count a) (omega arith)),
)
  where
    exact : sub64 a.tail n ≡ a.tail - n
    exact = omega (arith, v.bounded, v.sized, v.tail_in, v.head_in)

-- `read` at an offset copies the bytes there and leaves the object; at -1 it takes the first ones out.
pub array_read-peek :
    {a : Array} (n offset : ℕ)
    → IsValid a
    → offset + n ≤ count a
    → read a n offset ≡ ok (take n (drop offset (contents a)), a)
unfolding read
array_read-peek {a} n offset v h = rw (
  ne→== offset npos (omega (arith, v.bounded, v.sized, v.tail_in)),
  get_count-eq v,
  le→ltb (count a) (add64 offset n) (omega (arith, v.bounded, v.sized, v.tail_in)),
  exact,
  load-ok a.block.mem (a.head + offset) n (omega (arith, v.tail_in, v.head_in)),
  drop-slice a.block.mem a.head offset (count a) (omega arith),
  take-slice a.block.mem (a.head + offset) n (count a - offset) (omega arith),
)
  where
    exact : add64 a.head offset ≡ a.head + offset
    exact = omega (arith, v.bounded, v.sized, v.tail_in, v.head_in)

pub array_read-front :
    {a : Array} (n : ℕ)
    → IsValid a
    → n ≤ count a
    → (a' : Array) × (read a n npos ≡ ok (take n (contents a), a'))
      × IsValid a'
      × (contents a' ≡ drop n (contents a))
unfolding read
array_read-front {a} n v h = (
  record a { head = a.head + n },
  rw (
    get_count-eq v,
    le→ltb (count a) (add64 0 n) (omega (arith, v.bounded, v.sized, v.tail_in)),
    start,
    load-ok a.block.mem a.head n (omega (arith, v.tail_in, v.head_in)),
    exact,
    take-slice a.block.mem a.head n (count a) h,
  ),
  record {
    bounded = v.bounded;
    sized = v.sized;
    head_in = omega (arith, v.head_in);
    tail_in = v.tail_in;
  },
  ap (slice a.block.mem (a.head + n)) {x = a.tail - (a.head + n)} {y = count a - n} (omega arith)
      ∙ sym (drop-slice a.block.mem a.head n (count a) h),
)
  where
    exact : add64 a.head n ≡ a.head + n
    exact = omega (arith, v.bounded, v.sized, v.tail_in, v.head_in)

    start : add64 a.head 0 ≡ a.head
    start = omega (arith, v.bounded, v.sized, v.tail_in, v.head_in)

-- `reset` empties the array.
pub array_reset-IsValid : {a : Array} → IsValid a → IsValid (reset a) × (contents (reset a) ≡ [])
unfolding reset
array_reset-IsValid {a} v = (
  record { bounded = v.bounded; sized = v.sized; head_in = omega arith; tail_in = omega arith },
  slice-none a.block.mem 0 (0 - 0) (omega arith),
)
