-- ===== src/Buffer/Circle/Appending.antt =====
-- `circle::write` at the offset -1: it appends, growing the block by fours as far as it has to, where
-- the bytes do not go round the end of the block.
use simple_network.Base.{
  ℕ, zero, suc, ◌+◌, ◌-◌, ◌*◌, ◌%◌, ◌^◌, ◌≤◌, ◌<◌, ◌≡◌, refl, sym, ap, ◌∙◌, ◌⊎◌, inl, inr, ◌++◌,
  take, length, npos, Bytes, splice-end, ok, err, write_no_space, Run, arith, lt→ltb, le→ltb,
  lt-or-le, eq-or-ne, length-splice,
}
use simple_network.Buffer.Circle.{Circle, size, written, write_back, write}
use simple_network.Buffer.Circle.Index.{mod_once}
use simple_network.Buffer.Circle.Valid.{
  IsValid, count, contents, count-lt, get_count-eq, length-contents,
}
use simple_network.Buffer.Circle.Moves.{written_lem}
use simple_network.Buffer.Circle.Placing.{overwrite, overwrite-IsValid, contents-overwrite}
use simple_network.Buffer.Circle.Writing.{write_at-all}
use simple_network.Buffer.Circle.Regrowing.{
  Unstuck, Unstuck-lt, Regrown, regrow, Unstuck-Regrown, append-grows, append-full, grow_room,
}
use simple_network.Buffer.Circle.Growing.{get_space-free, get_space-full, expand-limit}

-- What an append leaves: the bytes behind those held, in the block where they were or in a larger one
-- whose first byte is the oldest.
-- Of the `k` times that it may grow, `left` are left.
pub record Appended (k : ℕ) (c : Circle) (bs : Bytes) (c' : Circle) : Type 0 where
  pub left : ℕ
  pub left_le : left ≤ k
  pub larger : size c ≤ size c'
  pub reach : size c' * 4 ^ left ≡ size c * 4 ^ k
  pub valid : IsValid c'
  pub bytes : contents c' ≡ contents c ++ bs
  pub placed : ((c'.head ≡ c.head) × (size c' ≡ size c)) ⊎ (c'.head ≡ 0)
  pub limit : c'.block.max_size ≡ c.block.max_size

-- The bytes held end where the next are put.
pub end-place : {c : Circle} → IsValid c → (c.head + count c) % size c ≡ c.tail
end-place {c} v = ground (arith, v.head_in, v.tail_in, mod_once (c.head + count c) (size c))

-- With room enough, and none of it beyond the end of the block.
append-fits :
    (k fuel : ℕ) {c : Circle} (bs : Bytes)
    → IsValid c
    → 0 < length bs
    → length bs ≤ fuel
    → count c + length bs < size c
    → length bs + 1 < size c
    → c.tail + length bs ≤ size c
    → (c' : Circle) × (write (suc fuel) c bs npos ≡ ok c') × Appended k c bs c'
unfolding write write_back written
append-fits k fuel {c} bs v pos f h stuck inside = (
  overwrite c1 ((c.head + count c) % size c) bs,
  rw
      (
        get_space-free fuel v (omega arith),
        le→ltb (size c - 1 - count c) (length bs) (omega arith),
        get_count-eq v,
      )
      (write_at-all fuel c1 (count c) bs facts.0 f (omega (arith, facts))
        (omega (arith, end-place v)) (omega (arith, facts))),
  record {
    left = k;
    left_le = omega arith;
    larger = omega (arith, length-splice c1.block.mem ((c.head + count c) % size c) bs);
    reach = ap (λ (t : ℕ). t * 4 ^ k) (length-splice _ _ _);
    valid = overwrite-IsValid _ bs facts.0;
    bytes =
        contents-overwrite (count c) bs facts.0 (omega (arith, facts)) (omega (arith, end-place v))
        ∙ splice-end (contents c1) (count c) bs (omega (arith, length-contents c1, facts))
        ∙ ap (λ xs. xs ++ bs) facts.2;
    placed = inl (refl, length-splice _ _ _);
    limit = refl;
  },
)
  where
    c1 : Circle
    c1 = written c (length bs)

    facts :
        IsValid c1 × (count c1 ≡ count c + length bs) × (take (count c) (contents c1) ≡ contents c)
    facts = written_lem (length bs) v h

Regrown-Appended :
    {c c1 : Circle} {run run1 : Run Circle} (k : ℕ) (bs : Bytes)
    → Regrown c c1
    → run ≡ run1
    → (c' : Circle) × (run1 ≡ ok c') × Appended k c1 bs c'
    → (c' : Circle) × (run ≡ ok c') × Appended (suc k) c bs c'
Regrown-Appended {c} {c1} k bs r e (c', done, a) = (
  c',
  e ∙ done,
  record {
    left = a.left;
    left_le = omega (arith, a.left_le);
    larger = omega (arith, a.larger, r.four);
    reach = a.reach ∙ ap (λ (t : ℕ). t * 4 ^ k) r.four ∙ sym (grow_room (size c) k).0;
    valid = a.valid;
    bytes = a.bytes ∙ ap (λ xs. xs ++ bs) r.same;
    placed = inr (elim a.placed [ inl p ↦ p.0 ∙ r.front | inr p ↦ p ]);
    limit = a.limit ∙ r.limit;
  },
)

-- The same, of what stays where it is.
pub append_here :
    (fuel : ℕ) {c : Circle} (bs : Bytes)
    → IsValid c
    → 0 < length bs
    → length bs ≤ fuel
    → count c + length bs < size c
    → length bs + 1 < size c
    → c.tail + length bs ≤ size c
    → (c' : Circle) × (write (suc fuel) c bs npos ≡ ok c')
      × IsValid c'
      × (contents c' ≡ contents c ++ bs)
append_here fuel bs v pos f h stuck inside =
    let (c', run, a) = append-fits 0 fuel bs v pos f h stuck inside in (c', run, a.valid, a.bytes)

-- `write` at the end appends the bytes to those held, and the buffer stays valid: growing by fours at
-- most `k` times makes room for them below the largest size; if they fit at once, they do not go
-- round the end of the block; and the buffer holds something or takes no size one above the number of
-- bytes. Fuel above the number of bytes and `k` is enough.
pub write-append :
    (k fuel : ℕ) (c : Circle) (bs : Bytes)
    → IsValid c
    → 0 < length bs
    → length bs + k < fuel
    → count c + length bs < size c * 4 ^ k
    → size c * 4 ^ k < c.block.max_size
    → (count c + length bs < size c → c.tail + length bs ≤ size c)
    → Unstuck c (length bs)
    → (c' : Circle) × (write fuel c bs npos ≡ ok c') × Appended k c bs c'
write-append zero zero c bs v pos f room limit inside u = absurd (omega arith)
write-append zero (suc fuel) c bs v pos f room limit inside u =
    append-fits zero fuel bs v pos (omega arith) (omega arith)
      (Unstuck-lt c (length bs) u (omega arith)) (inside (omega arith))
write-append (suc k) zero c bs v pos f room limit inside u = absurd (omega arith)
write-append (suc k) (suc zero) c bs v pos f room limit inside u = absurd (omega arith)
write-append (suc k) (suc (suc fuel)) c bs v pos f room limit inside u =
    elim (lt-or-le (count c + length bs) (size c)) [
      | inl fits ↦
          append-fits (suc k) (suc fuel) bs v pos (omega arith) fits
            (Unstuck-lt c (length bs) u fits) (inside fits)
      | inr more ↦
          let (c1, grows, r) = regrow v (omega (arith, grow_room (size c) k)) in
          let bigger : count c + length bs < size c1 * 4 ^ k =
            omega (arith, grow_room (size c) k, ap (λ (t : ℕ). t * 4 ^ k) r.four) in
          let below : size c1 * 4 ^ k < c1.block.max_size =
            omega (arith, grow_room (size c) k, ap (λ (t : ℕ). t * 4 ^ k) r.four, r.limit) in
          elim (eq-or-ne (count c + 1) (size c)) [
            | inl full ↦
                Regrown-Appended k bs r
                  (append-full fuel bs v full grows r.valid (omega (arith, r.counted, r.four)))
                  (write-append k (suc (suc fuel)) c1 bs r.valid pos (omega arith)
                    (omega (arith, bigger, r.counted)) below (λ h. omega (arith, r.counted, r.back))
                    (Unstuck-Regrown (length bs) r u))
            | inr free ↦
                Regrown-Appended k bs r
                  (append-grows (suc fuel) bs v (omega (arith, count-lt v)) more grows)
                  (write-append k (suc fuel) c1 bs r.valid pos (omega arith)
                    (omega (arith, bigger, r.counted)) below (λ h. omega (arith, r.counted, r.back))
                    (Unstuck-Regrown (length bs) r u))
          ]
    ]

-- For a buffer whose oldest byte is at the start of the block, nothing can go round the end.
pub write-append_at_start :
    (k fuel : ℕ) (c : Circle) (bs : Bytes)
    → IsValid c
    → c.head ≡ 0
    → 0 < length bs
    → length bs + k < fuel
    → count c + length bs < size c * 4 ^ k
    → size c * 4 ^ k < c.block.max_size
    → Unstuck c (length bs)
    → (c' : Circle) × (write fuel c bs npos ≡ ok c') × Appended k c bs c' × (c'.head ≡ 0)
write-append_at_start k fuel c bs v front pos f room limit u =
    let (c', e, a) =
      write-append k fuel c bs v pos f room limit (λ h. ground (arith, v.tail_in)) u in
    (c', e, a, elim a.placed [ inl p ↦ p.0 ∙ front | inr p ↦ p ])

-- An append that needs a block of more than the largest size throws.
pub write-no_room :
    {c : Circle} (fuel : ℕ) (bs : Bytes)
    → IsValid c
    → size c ≤ count c + length bs
    → c.block.max_size ≤ size c * 4
    → write (suc fuel) c bs npos ≡ err write_no_space
unfolding write write_back
write-no_room {c} fuel bs v more limit = elim (eq-or-ne (count c + 1) (size c)) [
  | inl full ↦ rw (get_space-full fuel v full, expand-limit v limit)
  | inr free ↦ rw (
    get_space-free fuel v (omega (arith, count-lt v)),
    lt→ltb (size c - 1 - count c) (length bs) (omega (arith, count-lt v)),
    expand-limit v limit,
  )
]
