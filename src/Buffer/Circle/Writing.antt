-- ===== src/Buffer/Circle/Writing.antt =====
-- `circle::write` at an offset and at the end: the inputs for which it does what it should, and those
-- for which it writes past the block or never returns.
use native.Mathlib.Nat.{mod-lt, mod-eq_of_lt, mod-add-mod}
use simple_network.Base.{
  ℕ, zero, suc, ◌+◌, ◌-◌, ◌%◌, ◌≤◌, ◌<◌, ◌≡◌, ◌≢◌, refl, sym, ap, ◌∙◌, inl, inr, [], get_or, take,
  drop, length, tabulate_ext, tabulate-get_or, add64, npos, Bytes, splice, ok, err, fault,
  out_of_fuel, write_invalid_offset, arith, lt→ltb, le→ltb, eq→==, ne→==, eq-or-ne, length-drop,
  length-splice, splice-splice, take-whole,
}
use simple_network.Buffer.Circle.{Circle, size, write_at, write}
use simple_network.Buffer.Circle.Index.{size_pos, gap, gap-advance}
use simple_network.Buffer.Circle.Valid.{IsValid, count, contents, count-lt, get_count-eq}
use simple_network.Buffer.Circle.Placing.{
  overwrite, overwrite-IsValid, contents-overwrite, room, room-le, room-pos, write_at-round,
  write_at-fault,
}

-- `write` at an offset within the bytes held is its copying part.
write-inside :
    {c : Circle} (fuel o : ℕ) (bs : Bytes)
    → IsValid c
    → o + length bs ≤ count c
    → write (suc fuel) c bs o ≡ write_at (λ c bs o. write fuel c bs o) c bs o
unfolding write
write-inside {c} fuel o bs v h = rw (
  ne→== o npos (omega (arith, v.sized.small, count-lt v)),
  get_count-eq v,
  le→ltb (count c) (add64 o (length bs)) (omega arith),
)

-- The buffer after a first round, and what is left to do.
module _ {c : Circle} (v : IsValid c) (o : ℕ) (bs : Bytes) (h : o + length bs ≤ count c) where
  abbrev place : ℕ
  place = (c.head + o) % size c

  abbrev k : ℕ
  k = room c o (length bs)

  abbrev after : Circle
  after = overwrite c place (take k bs)

  size-after : size after ≡ size c
  size-after = length-splice c.block.mem place (take k bs)

  count-after : count after ≡ count c
  count-after = ap (λ n. gap c.head c.tail n) size-after

  left : length (drop k bs) ≡ length bs - k
  left = length-drop k bs

  place-after : k < size c → place + k < size c → (after.head + (o + k)) % size after ≡ place + k
  place-after r q =
      ap (λ n. (c.head + (o + k)) % n) size-after
      ∙ ap (λ (t : ℕ). t % size c) {x = c.head + (o + k)} {y = c.head + o + k} (omega arith)
      ∙ sym (mod-add-mod (c.head + o) (size c) k)
      ∙ mod-eq_of_lt q

  overwrite-after : overwrite after (place + k) (drop k bs) ≡ overwrite c place bs
  overwrite-after =
      ap (λ m. record c { block = record c.block { mem = m } })
        (splice-splice c.block.mem place k bs (room-le v o bs h))

-- All rounds, where the bytes stay inside the block and the first round copies something.
pub write_at-all :
    (fuel : ℕ) (c : Circle) (o : ℕ) (bs : Bytes)
    → IsValid c
    → length bs ≤ fuel
    → o + length bs ≤ count c
    → (c.head + o) % size c + length bs ≤ size c
    → count c - o + 1 < size c
    → write_at (λ c bs o. write fuel c bs o) c bs o ≡ ok (overwrite c ((c.head + o) % size c) bs)
write_at-all zero c o bs v f h q p =
    write_at-round v o bs h (λ c bs o. write zero c bs o) (omega (arith, room-le v o bs h))
    ∙ rw (
      eq→== (length bs - room c o (length bs)) 0 (omega arith),
      take-whole (room c o (length bs)) bs (omega (arith, room-le v o bs h)),
    )
write_at-all (suc fuel) c o bs v f h q p =
    write_at-round v o bs h (λ c bs o. write (suc fuel) c bs o) (omega (arith, room-le v o bs h))
    ∙ elim (eq-or-ne (length bs - room c o (length bs)) 0) [
      | inl e ↦
          rw (eq→== _ _ e, take-whole (room c o (length bs)) bs (omega (arith, room-le v o bs h)))
      | inr e ↦
          rw (ne→== _ _ e, whole)
            (rest
              (λ a b d.
                write_at-all fuel (after v o bs h) (o + k v o bs h) (drop (k v o bs h) bs) next a
                  inside b d)
              e)
    ]
  where
    whole : add64 o (room c o (length bs)) ≡ o + room c o (length bs)
    whole = omega (arith, v.sized.small, count-lt v, room-le v o bs h)

    next : IsValid (after v o bs h)
    next = overwrite-IsValid _ _ v

    facts :
        (k v o bs h ≤ length bs)
        × (length (drop (k v o bs h) bs) ≡ length bs - k v o bs h)
        × (count (after v o bs h) ≡ count c)
        × (size (after v o bs h) ≡ size c)
    facts = (room-le v o bs h, left v o bs h, count-after v o bs h, size-after v o bs h)

    inside : o + k v o bs h + length (drop (k v o bs h) bs) ≤ count (after v o bs h)
    inside = omega (arith, facts)

    rest :
        (length (drop (k v o bs h) bs) ≤ fuel
          → ((after v o bs h).head + (o + k v o bs h)) % size (after v o bs h)
              + length (drop (k v o bs h) bs)
            ≤ size (after v o bs h)
          → count (after v o bs h) - (o + k v o bs h) + 1 < size (after v o bs h)
          → write_at
              (λ c bs o. write fuel c bs o)
              (after v o bs h)
              (drop (k v o bs h) bs)
              (o + k v o bs h)
            ≡ ok (
                overwrite
                  (after v o bs h)
                  (((after v o bs h).head + (o + k v o bs h)) % size (after v o bs h))
                  (drop (k v o bs h) bs)))
        → length bs - k v o bs h ≢ 0
        → write (suc fuel) (after v o bs h) (drop (k v o bs h) bs) (o + k v o bs h)
          ≡ ok (overwrite c ((c.head + o) % size c) bs)
    rest ih e =
        write-inside fuel (o + k v o bs h) (drop (k v o bs h) bs) next inside
        ∙ ih (omega (arith, facts, room-pos v o bs h p)) (omega (arith, facts, moved))
            (omega (arith, facts, room-pos v o bs h p))
        ∙ ap (λ p. ok (overwrite (after v o bs h) p (drop (k v o bs h) bs))) moved
        ∙ ap ok (overwrite-after v o bs h)
      where
        moved :
            ((after v o bs h).head + (o + k v o bs h)) % size (after v o bs h)
            ≡ place v o bs h + k v o bs h
        moved = place-after v o bs h (omega (arith, facts, count-lt v)) (omega (arith, facts))

-- The result of `write` at an offset within the bytes held, where the bytes do not go round the end
-- of the block and the buffer is not both full and written from its start: the bytes there are
-- replaced, and nothing else changes. More fuel than there are bytes is enough.
pub write-offset :
    {c : Circle} (fuel o : ℕ) (bs : Bytes)
    → IsValid c
    → length bs < fuel
    → o + length bs ≤ count c
    → (c.head + o) % size c + length bs ≤ size c
    → count c - o + 1 < size c
    → (c' : Circle) × (write fuel c bs o ≡ ok c')
      × IsValid c'
      × (contents c' ≡ splice (contents c) o bs)
      × (size c' ≡ size c)
      × (c'.head ≡ c.head)
      × (c'.block.max_size ≡ c.block.max_size)
write-offset zero o bs v f h q p = absurd (omega arith)
write-offset {c} (suc fuel) o bs v f h q p = (
  overwrite c ((c.head + o) % size c) bs,
  write-inside fuel o bs v h ∙ write_at-all fuel c o bs v (omega arith) h q p,
  overwrite-IsValid _ bs v,
  contents-overwrite o bs v h q,
  length-splice _ _ _,
  refl,
  refl,
)

-- `write` of bytes that are not all within the bytes held throws.
pub write-beyond :
    {c : Circle} (fuel o : ℕ) (bs : Bytes)
    → IsValid c
    → o + length bs < npos
    → count c < o + length bs
    → write (suc fuel) c bs o ≡ err write_invalid_offset
unfolding write
write-beyond {c} fuel o bs v small h = rw (
  ne→== o npos (omega arith),
  get_count-eq v,
  lt→ltb (count c) (add64 o (length bs)) (omega arith),
)

pub write_at-past_end :
    {c : Circle} (fuel o : ℕ) (bs : Bytes)
    → IsValid c
    → o + length bs ≤ count c
    → size c < (c.head + o) % size c + length bs
    → size c < (c.head + o) % size c + (size c - 1 - (count c - o))
    → write_at (λ c bs o. write fuel c bs o) c bs o ≡ fault
unfolding room
write_at-past_end {c} fuel o bs v h q p =
    write_at-fault v o bs h (λ c bs o. write fuel c bs o)
      (ground (
        arith,
        v.tail_in,
        v.head_in,
        count-lt v,
        gap-advance c.head c.tail (size c) o v.head_in v.tail_in,
        mod-lt (c.head + o) (size_pos v.sized),
      ))

-- Where the place lies so near the end of the block that the bytes go round it, and the free room
-- from the end of the bytes held to the place is larger than what is left of the block, `write` runs
-- past the block.
pub write-past_end :
    {c : Circle} (fuel o : ℕ) (bs : Bytes)
    → IsValid c
    → o + length bs ≤ count c
    → size c < (c.head + o) % size c + length bs
    → size c < (c.head + o) % size c + (size c - 1 - (count c - o))
    → write (suc fuel) c bs o ≡ fault
write-past_end fuel o bs v h q p = write-inside fuel o bs v h ∙ write_at-past_end fuel o bs v h q p

splice-nil : (mem : Bytes) (p : ℕ) → splice mem p [] ≡ mem
unfolding splice
splice-nil mem p =
    tabulate_ext (length mem) _ (λ i. get_or mem i 0) (λ i hi. ground arith) ∙ tabulate-get_or mem 0

-- With every byte of the buffer in use and the offset 0, a round copies nothing, and asks for the
-- same again.
pub write_at-stuck :
    (fuel : ℕ) {c : Circle} (bs : Bytes)
    → IsValid c
    → 0 < length bs
    → length bs ≤ count c
    → count c + 1 ≡ size c
    → write_at (λ c bs o. write fuel c bs o) c bs 0 ≡ write fuel c bs 0
unfolding room
write_at-stuck fuel {c} bs v h k e =
    write_at-round v 0 bs (omega arith) (λ c bs o. write fuel c bs o)
      (omega (arith, none, mod-lt (c.head + 0) (size_pos v.sized)))
    ∙ rw (none, ne→== (length bs - 0) 0 (omega arith), splice-nil)
  where
    none : room c 0 (length bs) ≡ 0
    none = omega arith

-- With every byte of the buffer in use, `write` of some bytes at the offset 0 calls itself for ever.
pub write-stuck :
    {c : Circle} (fuel : ℕ) (bs : Bytes)
    → IsValid c
    → 0 < length bs
    → length bs ≤ count c
    → count c + 1 ≡ size c
    → write fuel c bs 0 ≡ out_of_fuel
unfolding write
write-stuck zero bs v h k e = refl
write-stuck {c} (suc fuel) bs v h k e =
    write-inside fuel 0 bs v (omega arith)
    ∙ write_at-stuck fuel bs v h k e
    ∙ write-stuck fuel bs v h k e
