-- ===== src/Buffer/Circle/Moves.antt =====
-- The operations of circle.h that only move the two indices: the constructor, `reset`, `remove`,
-- `written` and `remove_from_back`, in terms of the bytes held.
use native.Mathlib.Nat.{mod-lt}
use simple_network.Base.{
  ℕ, ◌+◌, ◌-◌, ◌%◌, ◌^◌, ◌≤◌, ◌<◌, ◌≡◌, refl, sym, ap, subst, ◌∙◌, [], take, drop, tabulate,
  tabulate_ext, add64, arith,
}
use simple_network.Buffer.Data.{get_size-make, max_size-make}
use simple_network.Buffer.Circle.{Circle, size, make, reset, written, remove, remove_from_back}
use simple_network.Buffer.Circle.Index.{IsSize, size_pos, gap-extend}
use simple_network.Buffer.Circle.Valid.{
  IsValid, moved, byte, count, contents, count-lt, take-contents, advance-IsValid, contents-advance,
  contents-range,
}

-- A new buffer is valid and empty.
pub make-IsValid :
    (m n : ℕ) → IsSize n → m ≤ 2 ^ 30 → IsValid (make m n) × (contents (make m n) ≡ [])
unfolding make tabulate
make-IsValid m n s h = (
  record {
    sized = subst IsSize (sym (get_size-make m n)) s;
    bounded = rw max_size-make h;
    head_in = rw get_size-make (size_pos s);
    tail_in = rw get_size-make (size_pos s);
  },
  refl,
)

-- `reset` empties the buffer.
pub reset-IsValid : {c : Circle} → IsValid c → IsValid (reset c) × (contents (reset c) ≡ [])
unfolding reset tabulate
reset-IsValid v = (moved 0 0 v (size_pos v.sized) (size_pos v.sized), refl)

-- `remove` of at most the bytes held drops them from the front.
pub remove_lem :
    {c : Circle} (n : ℕ)
    → IsValid c
    → n ≤ count c
    → IsValid (remove c n) × (contents (remove c n) ≡ drop n (contents c))
unfolding remove
remove_lem {c} n v h = rw exact (advance-IsValid n v h, contents-advance n v h)
  where
    exact : add64 c.head n ≡ c.head + n
    exact = omega (arith, v.sized.small, count-lt v)

-- `written` of at most the free bytes keeps the bytes held, and adds as many behind them.
pub written_lem :
    {c : Circle} (n : ℕ)
    → IsValid c
    → count c + n < size c
    → IsValid (written c n)
      × (count (written c n) ≡ count c + n)
      × (take (count c) (contents (written c n)) ≡ contents c)
unfolding written byte
written_lem {c} n v h = rw exact (
  moved _ _ v v.head_in (mod-lt (c.tail + n) (size_pos v.sized)),
  counted,
  take-contents (record c { tail = (c.tail + n) % size c }) (count c) (omega (arith, counted))
      ∙ sym (contents-range c),
)
  where
    exact : add64 c.tail n ≡ c.tail + n
    exact = omega (arith, v.sized.small, v.tail_in)

    counted : count (record c { tail = (c.tail + n) % size c }) ≡ count c + n
    counted = gap-extend c.head c.tail (size c) n v.head_in v.tail_in h

-- Where the bytes to take off lie before `tail_` in the block, `remove_from_back` steps back.
remove_from_back-eq :
    {c : Circle} (n : ℕ)
    → IsValid c
    → n ≤ c.tail
    → remove_from_back c n ≡ record c { tail = c.tail - n }
unfolding remove_from_back
remove_from_back-eq n v h = ground (arith, v.sized.small, v.tail_in)

-- `remove_from_back` of no more bytes than lie between the start of the block and `tail_` keeps all
-- the bytes held but the last ones.
pub remove_from_back_lem :
    {c : Circle} (n : ℕ)
    → IsValid c
    → n ≤ count c
    → n ≤ c.tail
    → IsValid (remove_from_back c n)
      × (contents (remove_from_back c n) ≡ take (count c - n) (contents c))
unfolding byte
remove_from_back_lem {c} n v h k = rw (remove_from_back-eq n v k) (
  moved _ _ v v.head_in (omega (arith, v.tail_in)),
  ap (λ k. tabulate k (byte c)) counted
      ∙ tabulate_ext _ _ _ (λ i hi. ap (byte c) (omega arith))
      ∙ sym (take-contents c (count c - n) (omega arith)),
)
  where
    counted : count (record c { tail = c.tail - n }) ≡ count c - n
    counted = ground (arith, v.tail_in, v.head_in)

-- Where they go round the start of the block, the `size_t` wraps, the test `tail_ < 0` does not
-- notice, and `tail_` is left outside the block.
pub remove_from_back_wraps :
    {c : Circle} (n : ℕ)
    → IsValid c
    → n ≤ count c
    → c.tail < n
    → (remove_from_back c n).tail ≡ 2 ^ 64 - (n - c.tail)
unfolding remove_from_back
remove_from_back_wraps n v h k = ground (arith, v.sized.small, count-lt v)
