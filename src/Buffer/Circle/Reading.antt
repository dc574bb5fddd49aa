-- ===== src/Buffer/Circle/Reading.antt =====
-- `circle::read`: it returns the bytes held, in order, also where they go round the end of the block.
use native.Mathlib.Nat.{mod-add-mod, mod-lt, mod-eq_of_lt}
use simple_network.Base.{
  ℕ, zero, suc, ◌+◌, ◌-◌, ◌%◌, ◌≤◌, ◌<◌, min, ◌≡◌, refl, sym, ap, ◌∙◌, inl, inr, Bool, true, false,
  ◌++◌, ltb, ◌==◌, if◌then◌else◌, get_or, take, drop, tabulate_ext, add64, npos, Bytes, slice, load,
  load-ok, ok, err, read_invalid_offset, Run, ◌>>=◌, arith, lt→ltb, le→ltb, eq→==, ne→==, eq-or-ne,
}
use simple_network.Buffer.Circle.{Circle, size, get_continguious_count_at, read_step, read}
use simple_network.Buffer.Circle.Index.{size_pos, gap-advance, get_continguious_count_at-eq}
use simple_network.Buffer.Circle.Valid.{
  IsValid, byte, range, count, contents, count-lt, get_count-eq, range-split, range-contents,
  advance, advance-IsValid, contents-advance, count-advance, byte-advance,
}

-- How many of the `n` bytes at offset `o` lie in one piece of the block.
unfoldable pub piece : Circle → ℕ → ℕ → ℕ
piece c o n = min (min (count c - o) (size c - (c.head + o) % size c)) n

module _ {c : Circle} (v : IsValid c) (o n : ℕ) (h : o + n ≤ count c) where
  place-lt : (c.head + o) % size c < size c
  place-lt = mod-lt (c.head + o) (size_pos v.sized)

  pub no_wrap : add64 c.head o ≡ c.head + o
  no_wrap = omega (arith, v.sized.small, v.head_in, count-lt v)

  pub piece-eq :
      min (get_continguious_count_at ((c.head + o) % size c) c.tail (size c)) n ≡ piece c o n
  unfolding piece
  piece-eq = rw (
    get_continguious_count_at-eq v.sized ((c.head + o) % size c) c.tail place-lt v.tail_in,
    gap-advance c.head c.tail (size c) o v.head_in v.tail_in (omega arith),
  )

  pub piece-le : piece c o n ≤ n
  unfolding piece
  piece-le = omega arith

  pub piece-pos : 0 < n → 0 < piece c o n
  unfolding piece
  piece-pos p = omega (arith, place-lt)

  -- A piece of the block holds the bytes of the buffer.
  pub load-piece :
      load c.block.mem ((c.head + o) % size c) (piece c o n) ≡ ok (range c o (piece c o n))
  unfolding slice byte piece
  load-piece =
      load-ok c.block.mem ((c.head + o) % size c) (piece c o n) (omega (arith, place-lt))
      ∙ ap ok (tabulate_ext (piece c o n) _ _ (λ i hi. ap (λ k. get_or c.block.mem k 0) (at i hi)))
    where
      at : (i : ℕ) → i < piece c o n → (c.head + o) % size c + i ≡ (c.head + (o + i)) % size c
      at i hi =
          sym (mod-eq_of_lt {n = (c.head + o) % size c + i} {m = size c} (omega (arith, place-lt)))
          ∙ mod-add-mod (c.head + o) (size c) i
          ∙ ap (λ (t : ℕ). t % size c) {x = c.head + o + i} {y = c.head + (o + i)} (omega arith)

  within : ltb (count c) (add64 o n) ≡ false
  within = le→ltb (count c) (add64 o n) (omega arith)

  -- One call of `read` that leaves the buffer as it is.
  peek_step :
      (again : Circle → ℕ → ℕ → Bool → Run (Bytes × Circle))
      → read_step again c n o true ≡ (
          if n - piece c o n == 0 then ok (range c o (piece c o n), c) else do
            (rest, c') ← again c (n - piece c o n) (add64 o (piece c o n)) true
            ok (range c o (piece c o n) ++ rest, c'))
  unfolding read_step
  peek_step again = rw (get_count-eq v, no_wrap, piece-eq, load-piece, within)

  -- One that takes the bytes out, at the offset 0.
  take_step :
      (again : Circle → ℕ → ℕ → Bool → Run (Bytes × Circle))
      → o ≡ 0
      → read_step again c n o false ≡ (
          if n - piece c o n == 0 then ok (range c o (piece c o n), advance c (piece c o n)) else do
            (rest, c') ← again (advance c (piece c o n)) (n - piece c o n) o false
            ok (range c o (piece c o n) ++ rest, c'))
  unfolding read_step
  take_step again e = rw (get_count-eq v, no_wrap, piece-eq, load-piece, within, whole)
    where
      whole : add64 c.head (piece c o n) ≡ c.head + piece c o n
      whole = omega (arith, v.sized.small, v.head_in, count-lt v, piece-le)

-- The pieces make up the range.
pub range-pieces :
    (c : Circle) (o k n : ℕ) → k ≤ n → range c o k ++ range c (o + k) (n - k) ≡ range c o n
range-pieces c o k n h =
    sym (range-split c o k (n - k)) ∙ ap (range c o) {x = k + (n - k)} {y = n} (omega arith)

range-advance : (c : Circle) (k n : ℕ) → range (advance c k) 0 n ≡ range c (0 + k) n
range-advance c k n =
    tabulate_ext n _ _ (λ i hi. byte-advance c k (0 + i) ∙ ap (byte c) (omega arith))

-- `read` at an offset returns the bytes there and leaves the buffer as it is. Fuel above the number
-- of bytes is enough.
pub read-peek_range :
    (fuel : ℕ) {c : Circle} (n o : ℕ)
    → IsValid c
    → n < fuel
    → o + n ≤ count c
    → read fuel c n o true ≡ ok (range c o n, c)
unfolding read
read-peek_range zero n o v f h = absurd (omega arith)
read-peek_range (suc fuel) {c} n o v f h =
    rw
      (
        ne→== o npos (omega (arith, v.sized.small, count-lt v)),
        peek_step v o n h (λ c n o p. read fuel c n o p),
      )
      (elim (eq-or-ne (n - piece c o n) 0) [
        | inl e ↦ rw (eq→== _ _ e) (ap (λ k. ok (range c o k, c)) (omega (arith, piece-le v o n h)))
        | inr e ↦ rw (
          ne→== _ _ e,
          steps,
          read-peek_range fuel (n - piece c o n) (o + piece c o n) v
              (omega (arith, piece-pos v o n h)) (omega (arith, piece-le v o n h)),
          range-pieces c o (piece c o n) n (piece-le v o n h),
        )
      ])
  where
    steps : add64 o (piece c o n) ≡ o + piece c o n
    steps = omega (arith, v.sized.small, count-lt v, piece-le v o n h)

advance-advance : (c : Circle) (k n : ℕ) → k ≤ n → advance (advance c k) (n - k) ≡ advance c n
advance-advance c k n h =
    ap (λ h. record c { head = h })
      (mod-add-mod (c.head + k) (size c) (n - k)
        ∙ ap (λ (t : ℕ). t % size c) {x = c.head + k + (n - k)} {y = c.head + n} (omega arith))

read-take_range :
    (fuel : ℕ) {c : Circle} (n : ℕ)
    → IsValid c
    → n < fuel
    → n ≤ count c
    → read fuel c n 0 false ≡ ok (range c 0 n, advance c n)
unfolding read
read-take_range zero n v f h = absurd (omega arith)
read-take_range (suc fuel) {c} n v f h =
    rw (take_step v 0 n (omega arith) (λ c n o p. read fuel c n o p) refl)
      (elim (eq-or-ne (n - piece c 0 n) 0) [
        | inl e ↦
            rw (eq→== _ _ e) (
              ap (λ k. ok (range c 0 k, advance c k)) (omega (arith, piece-le v 0 n (omega arith))))
        | inr e ↦ rw (
          ne→== _ _ e,
          read-take_range fuel (n - piece c 0 n) (advance-IsValid (piece c 0 n) v within_count)
              (omega (arith, piece-pos v 0 n (omega arith)))
              (omega (arith, count-advance (piece c 0 n) v within_count)),
          range-advance c (piece c 0 n) (n - piece c 0 n),
          range-pieces c 0 (piece c 0 n) n (piece-le v 0 n (omega arith)),
          advance-advance c (piece c 0 n) n (piece-le v 0 n (omega arith)),
        )
      ])
  where
    within_count : piece c 0 n ≤ count c
    within_count = omega (arith, piece-le v 0 n (omega arith))

-- `read` of `n` bytes at an offset within the bytes held returns exactly those, in order and across
-- the end of the block, and leaves the buffer as it is; more fuel than `n` is enough.
pub read-peek :
    {c : Circle} (fuel n o : ℕ)
    → IsValid c
    → n < fuel
    → o + n ≤ count c
    → read fuel c n o true ≡ ok (take n (drop o (contents c)), c)
read-peek {c} fuel n o v f h =
    read-peek_range fuel n o v f h ∙ ap (λ bs. ok (bs, c)) (range-contents c o n h)

-- `read` of `n` bytes at the offset -1 returns the first `n` bytes held and takes them out of the
-- buffer, which stays valid.
pub read-front :
    {c : Circle} (fuel n : ℕ) (peek : Bool)
    → IsValid c
    → n < fuel
    → n ≤ count c
    → (c' : Circle) × (read fuel c n npos peek ≡ ok (take n (contents c), c'))
      × IsValid c'
      × (contents c' ≡ drop n (contents c))
unfolding read
read-front {c} fuel n peek v f h = (
  advance c n,
  read-npos fuel n peek
      ∙ read-take_range fuel n v f h
      ∙ ap (λ bs. ok (bs, advance c n)) (range-contents c 0 n (omega arith)),
  advance-IsValid n v h,
  contents-advance n v h,
)
  where
    read-npos : (fuel n : ℕ) (peek : Bool) → read fuel c n npos peek ≡ read fuel c n 0 false
    read-npos zero n peek = refl
    read-npos (suc fuel) n peek = refl

-- `read` of more bytes than there are behind the offset throws, and changes nothing.
pub read-short :
    {c : Circle} (fuel n o : ℕ) (peek : Bool)
    → IsValid c
    → o + n < npos
    → count c < o + n
    → read (suc fuel) c n o peek ≡ err read_invalid_offset
unfolding read read_step
read-short {c} fuel n o peek v small h =
    rw (ne→== o npos (omega arith), get_count-eq v, lt→ltb (count c) (add64 o n) (omega arith))
