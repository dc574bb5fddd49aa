-- ===== src/Buffer/Circle/Placing.antt =====
-- The copying part of `circle::write`. It asks `get_continguious_space` for the room between the end
-- of the bytes held and the place that it writes to, and copies that many bytes at a time.
use native.Mathlib.Nat.{mod-lt}
use simple_network.Base.{
  ℕ, ◌+◌, ◌-◌, ◌%◌, ◌≤◌, ◌<◌, min, ◌≡◌, sym, ap, ◌∙◌, subst, true, ◌&&◌, ltb, leb, ◌==◌,
  if◌then◌else◌, get_or, take, drop, tabulate, length, tabulate_ext, add64, Bytes, splice, store-ok,
  store-fault, ok, fault, Run, arith, length-take, length-splice, get_or-splice, get_or-tabulate,
}
use simple_network.Buffer.Circle.{Circle, size, get_continguious_space_at, write_at}
use simple_network.Buffer.Circle.Index.{
  IsSize, size_pos, gap, gap-advance, mod_once, get_continguious_space_at-eq,
}
use simple_network.Buffer.Circle.Valid.{IsValid, byte, count, contents, count-lt, length-contents}

-- The buffer with bytes of its block overwritten.
abbrev pub overwrite : Circle → ℕ → Bytes → Circle
overwrite c p bs = record c { block = record c.block { mem = splice c.block.mem p bs } }

pub overwrite-IsValid : {c : Circle} (p : ℕ) (bs : Bytes) → IsValid c → IsValid (overwrite c p bs)
overwrite-IsValid {c} p bs v = record {
  sized = subst IsSize (sym same) v.sized;
  bounded = v.bounded;
  head_in = omega (arith, same, v.head_in);
  tail_in = omega (arith, same, v.tail_in);
}
  where
    same : length (splice c.block.mem p bs) ≡ size c
    same = length-splice c.block.mem p bs

-- An offset, an index of the block, and whether the one lies among the bytes written.
place_offset :
    (head size o i n : ℕ)
    → head < size
    → o + n < size
    → i < size
    → (head + o) % size + n ≤ size
    → ((leb ((head + o) % size) ((head + i) % size)
          && ltb ((head + i) % size) ((head + o) % size + n))
        ≡ (leb o i && ltb i (o + n)))
      × (((leb o i && ltb i (o + n)) ≡ true) → (head + i) % size - (head + o) % size ≡ i - o)
place_offset head size o i n p q r t = (
  ground (arith, mod_once (head + o) size, mod_once (head + i) size),
  λ e. ground (arith, mod_once (head + o) size, mod_once (head + i) size),
)

-- Where the bytes written do not go round the end of the block, the bytes held change at the same
-- offset, and there alone.
pub contents-overwrite :
    {c : Circle} (o : ℕ) (bs : Bytes)
    → IsValid c
    → o + length bs ≤ count c
    → (c.head + o) % size c + length bs ≤ size c
    → contents (overwrite c ((c.head + o) % size c) bs) ≡ splice (contents c) o bs
unfolding splice byte
contents-overwrite {c} o bs v h k =
    ap (λ n. tabulate (gap c.head c.tail n) (byte (overwrite c place bs)))
      (length-splice c.block.mem place bs)
    ∙ tabulate_ext (count c) (byte (overwrite c place bs)) changed same
    ∙ ap (λ n. tabulate n changed) (sym (length-contents c))
  where
    place : ℕ
    place = (c.head + o) % size c

    changed : ℕ → ℕ
    changed i =
        if leb o i && ltb i (o + length bs) then get_or bs (i - o) 0 else get_or (contents c) i 0

    same : (i : ℕ) → i < count c → byte (overwrite c place bs) i ≡ changed i
    same i hi =
        ap (λ n. get_or (splice c.block.mem place bs) ((c.head + i) % n) 0)
          (length-splice c.block.mem place bs)
        ∙ get_or-splice c.block.mem place bs ((c.head + i) % size c)
            (mod-lt (c.head + i) (size_pos v.sized))
        ∙ ground (
          arith,
          place_offset c.head (size c) o i (length bs) v.head_in (omega (arith, count-lt v))
              (omega (arith, count-lt v)) k,
          ap (λ j. get_or bs j 0) {x = (c.head + i) % size c - place} {y = i - o},
          get_or-tabulate (count c) (byte c) i 0 hi,
        )

-- How many bytes one round copies.
unfoldable pub room : Circle → ℕ → ℕ → ℕ
room c o n = min (min (size c - 1 - (count c - o)) (size c - c.tail)) n

module _ {c : Circle} (v : IsValid c) (o : ℕ) (bs : Bytes) (h : o + length bs ≤ count c) where
  pub no_wrap : add64 c.head o ≡ c.head + o
  no_wrap = omega (arith, v.sized.small, v.head_in, count-lt v)

  place-lt : (c.head + o) % size c < size c
  place-lt = mod-lt (c.head + o) (size_pos v.sized)

  room-eq :
      min (get_continguious_space_at ((c.head + o) % size c) c.tail (size c)) (length bs)
      ≡ room c o (length bs)
  unfolding room
  room-eq = rw (
    get_continguious_space_at-eq v.sized ((c.head + o) % size c) c.tail place-lt v.tail_in,
    gap-advance c.head c.tail (size c) o v.head_in v.tail_in (omega arith),
  )

  pub room-le : room c o (length bs) ≤ length bs
  unfolding room
  room-le = omega arith

  pub room-pos : count c - o + 1 < size c → 0 < length bs → 0 < room c o (length bs)
  unfolding room
  room-pos p q = omega (arith, v.tail_in)

  -- One round, at a place where it stays inside the block.
  pub write_at-round :
      (again : Circle → Bytes → ℕ → Run Circle)
      → (c.head + o) % size c + room c o (length bs) ≤ size c
      → let k = room c o (length bs) in
        write_at again c bs o ≡ (
          if length bs - k == 0
          then ok (overwrite c ((c.head + o) % size c) (take k bs))
          else again (overwrite c ((c.head + o) % size c) (take k bs)) (drop k bs) (add64 o k))
  unfolding write_at
  write_at-round again p = rw (
    no_wrap,
    room-eq,
    store-ok c.block.mem ((c.head + o) % size c) (take (room c o (length bs)) bs)
        (omega (arith, length-take (room c o (length bs)) bs room-le)),
  )

  -- One round that runs past the end of the block.
  pub write_at-fault :
      (again : Circle → Bytes → ℕ → Run Circle)
      → size c < (c.head + o) % size c + room c o (length bs)
      → write_at again c bs o ≡ fault
  unfolding write_at
  write_at-fault again p = rw (
    no_wrap,
    room-eq,
    store-fault c.block.mem ((c.head + o) % size c) (take (room c o (length bs)) bs)
        (omega (arith, length-take (room c o (length bs)) bs room-le)),
  )
