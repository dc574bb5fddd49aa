-- ===== src/Buffer/Circle/Growing.antt =====
-- `circle::expand` and `get_space`: growing keeps the bytes held.
use native.Mathlib.Nat.{mod-eq_of_lt, pow-suc}
use simple_network.Base.{
  ℕ, suc, ◌+◌, ◌-◌, ◌*◌, ◌%◌, ◌^◌, ◌≤◌, ◌<◌, min, ◌≡◌, refl, sym, ap, ap₂, ◌∙◌, subst, inl, inr,
  get_or, take, tabulate, tabulate_ext, length, add64, Bytes, splice, load, store, store-ok, ok,
  err, write_no_space, Run, ◌>>=◌, arith, lt→leb, le→leb, eq→==, ne→==, eq-or-ne, length-splice,
  splice-splice, get_or-splice, tabulate-get_or, drop, length-take, length-drop, take-whole,
}
use simple_network.Buffer.Data.{Data, get_size-make, max_size-make}
use simple_network.Buffer.Data
use simple_network.Buffer.Circle.{Circle, size, get_continguious_count, expand, get_space}
use simple_network.Buffer.Circle.Index.{
  IsSize, size_pos, space-eq, get_continguious_count_at-eq, mod_once,
}
use simple_network.Buffer.Circle.Valid.{
  IsValid, byte, range, count, contents, take-contents, drop-contents, count-lt, get_count-eq,
  length-contents,
}
use simple_network.Buffer.Circle.Reading.{piece, load-piece}

-- Four times a size is a size.
grown-IsSize : {n : ℕ} → IsSize n → n * 4 ≤ 2 ^ 30 → IsSize (n * 4)
grown-IsSize {n} s h = record {
  bits = suc (suc s.bits);
  power = omega (arith, s.power, pow-suc 2 (suc s.bits), pow-suc 2 s.bits);
  small = h;
}

-- A fresh block of four times the size, with the bytes held at its start.
abbrev grown : Circle → Circle
grown c = record {
  block = record {
    mem = splice (Data.make c.block.max_size (size c * 4)).mem 0 (contents c);
    max_size = c.block.max_size;
  };
  head = 0;
  tail = count c;
}

size-grown : (c : Circle) → size (grown c) ≡ size c * 4
size-grown c = length-splice _ 0 (contents c) ∙ get_size-make c.block.max_size (size c * 4)

-- How many bytes lie in one piece from `head_` on.
abbrev pub first : Circle → ℕ
first c = min (min (count c) (size c - c.head)) (count c)

module _ {c : Circle} (v : IsValid c) where
  whole : size c * 4 % 2 ^ 64 ≡ size c * 4
  whole = omega (arith, v.sized.small)

  pub front : get_continguious_count c ≡ min (count c) (size c - c.head)
  unfolding get_continguious_count
  front = get_continguious_count_at-eq v.sized c.head c.tail v.head_in v.tail_in

  -- The two pieces of the bytes held, and where they go.
  start : c.head ≡ (c.head + 0) % size c
  start =
      sym (mod-eq_of_lt v.head_in)
      ∙ ap (λ (t : ℕ). t % size c) {x = c.head} {y = c.head + 0} (omega arith)

  first-piece : first c ≡ piece c 0 (count c)
  unfolding piece
  first-piece = omega (arith, start)

  pub load-first : load c.block.mem c.head (first c) ≡ ok (take (first c) (contents c))
  load-first =
      ap₂ (load c.block.mem) start first-piece
      ∙ load-piece v 0 (count c) (omega arith)
      ∙ ap (λ k. ok (range c 0 k)) (sym first-piece)
      ∙ ap ok (sym (take-contents c (first c) (omega arith)))

  second-piece : count c - first c ≡ piece c (first c) (count c - first c)
  unfolding piece
  second-piece = ground (arith, v.head_in, mod_once (c.head + first c) (size c), count-lt v)

  load-second :
      load c.block.mem (add64 c.head (first c) % size c) (count c - first c)
      ≡ ok (drop (first c) (contents c))
  load-second =
      ap₂ (load c.block.mem) {x = add64 c.head (first c) % size c} {y = (c.head + first c) % size c}
        (ap (λ (t : ℕ). t % size c) {x = add64 c.head (first c)} {y = c.head + first c}
          (omega (arith, v.sized.small, v.head_in)))
        second-piece
      ∙ load-piece v (first c) (count c - first c) (omega arith)
      ∙ ap (λ k. ok (range c (first c) k)) (sym second-piece)
      ∙ ap ok (sym (drop-contents c (first c) (omega arith)))

  store-first :
      (m : Bytes)
      → length m ≡ size c * 4
      → store m 0 (take (first c) (contents c)) ≡ ok (splice m 0 (take (first c) (contents c)))
  store-first m e =
      store-ok m 0 _
        (omega (arith, length-take (first c) (contents c), length-contents c, count-lt v))

  store-second :
      (m : Bytes)
      → length m ≡ size c * 4
      → store m (first c) (drop (first c) (contents c))
        ≡ ok (splice m (first c) (drop (first c) (contents c)))
  store-second m e =
      store-ok m (first c) _
        (omega (arith, length-drop (first c) (contents c), length-contents c, count-lt v))

  whole-first : count c - first c ≡ 0 → take (first c) (contents c) ≡ contents c
  whole-first e = take-whole (first c) (contents c) (omega (arith, length-contents c))

  joined :
      (m : Bytes)
      → splice (splice m 0 (take (first c) (contents c))) (first c) (drop (first c) (contents c))
        ≡ splice m 0 (contents c)
  joined m =
      ap (λ p. splice (splice m 0 (take (first c) (contents c))) p (drop (first c) (contents c)))
        {x = first c} {y = 0 + first c} (omega arith)
      ∙ splice-splice m 0 (first c) (contents c) (omega (arith, length-contents c))

  pub expand-eq : size c * 4 < c.block.max_size → expand c ≡ ok (grown c)
  unfolding expand
  expand-eq h =
      rw
        (
          whole,
          lt→leb c.block.max_size (size c * 4) h,
          get_count-eq v,
          front,
          load-first,
          store-first fresh fresh-length,
        )
        (elim (eq-or-ne (count c - first c) 0) [
          | inl e ↦ rw (eq→== _ _ e, whole-first e) (ap built (max_size-make _ _))
          | inr e ↦
              rw
                (
                  ne→== _ _ e,
                  load-second,
                  store-second (splice fresh 0 (take (first c) (contents c)))
                      (length-splice fresh 0 (take (first c) (contents c)) ∙ fresh-length),
                  max_size-make,
                )
                (ap
                  (λ m. ok (record {
                    block = record { mem = m; max_size = c.block.max_size };
                    head = 0;
                    tail = count c;
                  }))
                  (joined fresh))
        ])
    where
      fresh : Bytes
      fresh = (Data.make c.block.max_size (size c * 4)).mem

      fresh-length : length fresh ≡ size c * 4
      fresh-length = get_size-make c.block.max_size (size c * 4)

      built : ℕ → Run Circle
      built m = ok (record {
        block = record { mem = splice fresh 0 (contents c); max_size = m };
        head = 0;
        tail = count c;
      })

  -- A buffer that may not grow to four times its size throws, also where the largest size is not
  -- reached.
  pub expand-limit : c.block.max_size ≤ size c * 4 → expand c ≡ err write_no_space
  unfolding expand
  expand-limit h = rw (whole, le→leb c.block.max_size (size c * 4) h)

  count-grown : count (grown c) ≡ count c
  count-grown = ground arith

  -- Growing keeps the bytes held.
  pub grown_lem :
      size c * 4 < c.block.max_size
      → IsValid (grown c) × (contents (grown c) ≡ contents c) × (size (grown c) ≡ size c * 4)
  unfolding byte
  grown_lem h = (
    record {
      sized = subst IsSize (sym (size-grown c)) (grown-IsSize v.sized (omega (arith, v.bounded)));
      bounded = v.bounded;
      head_in = omega (arith, size-grown c, size_pos v.sized);
      tail_in = omega (arith, size-grown c, count-lt v);
    },
    ap (λ n. tabulate n (byte (grown c))) count-grown
        ∙ tabulate_ext (count c) (byte (grown c)) (λ i. get_or (contents c) i 0) same
        ∙ ap (λ n. tabulate n (λ i. get_or (contents c) i 0)) (sym (length-contents c))
        ∙ tabulate-get_or (contents c) 0,
    size-grown c,
  )
    where
      fresh : Bytes
      fresh = (Data.make c.block.max_size (size c * 4)).mem

      fresh-length : length fresh ≡ size c * 4
      fresh-length = get_size-make c.block.max_size (size c * 4)

      same : (i : ℕ) → i < count c → byte (grown c) i ≡ get_or (contents c) i 0
      same i hi =
          ap (λ k. get_or (splice fresh 0 (contents c)) k 0) {x = (0 + i) % size (grown c)} {y = i}
            (ap (λ k. k % size (grown c)) {x = 0 + i} {y = i} (omega arith)
              ∙ mod-eq_of_lt (omega (arith, size-grown c, count-lt v)))
          ∙ get_or-splice fresh 0 (contents c) i (omega (arith, fresh-length, count-lt v))
          ∙ ground (
            arith,
            length-contents c,
            ap (λ j. get_or (contents c) j 0) {x = i - 0} {y = i} (omega arith),
          )

-- `expand` of a buffer that may grow to four times its size gives a valid one of that size with the
-- same bytes.
pub expand_lem :
    {c : Circle}
    → IsValid c
    → size c * 4 < c.block.max_size
    → (c' : Circle) × (expand c ≡ ok c')
      × IsValid c'
      × (contents c' ≡ contents c)
      × (size c' ≡ size c * 4)
      × (c'.head ≡ 0)
      × (c'.tail ≡ count c)
      × (c'.block.max_size ≡ c.block.max_size)
expand_lem {c} v h =
    let (valid, same, four) = grown_lem v h in
    (grown c, expand-eq v h, valid, same, four, refl, refl, refl)

-- `get_space` of a buffer with free bytes is their number.
pub get_space-free :
    {c : Circle} (fuel : ℕ)
    → IsValid c
    → count c + 1 < size c
    → get_space (suc fuel) c ≡ ok (size c - 1 - count c, c)
unfolding get_space
get_space-free {c} fuel v h = rw (
  space-eq v.sized c.head c.tail v.head_in v.tail_in,
  ne→== (size c - 1 - count c) 0 (omega arith),
)

-- `get_space` of a full buffer grows it first.
pub get_space-full :
    {c : Circle} (fuel : ℕ)
    → IsValid c
    → count c + 1 ≡ size c
    → get_space (suc fuel) c ≡ (do c' ← expand c; get_space fuel c')
unfolding get_space
get_space-full {c} fuel v h = rw (
  space-eq v.sized c.head c.tail v.head_in v.tail_in,
  eq→== (size c - 1 - count c) 0 (omega arith),
)
