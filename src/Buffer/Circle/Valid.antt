-- ===== src/Buffer/Circle/Valid.antt =====
-- The invariant of a `circle`, the bytes that it holds, and the operations that only move its two
-- indices: `reset`, `remove`, `written` and `remove_from_back` of circle.h.
use native.Mathlib.Nat.{mod-add-mod, mod-lt}
use simple_network.Base.{
  ℕ, ◌+◌, ◌-◌, ◌%◌, ◌^◌, ◌≤◌, ◌<◌, ◌≡◌, sym, ap, ◌∙◌, ◌++◌, length, get_or, take, drop, tabulate,
  tabulate_ext, tabulate-add, length-tabulate, take-append, drop-append, Bytes, arith,
}
use simple_network.Buffer.Circle.{Circle, size, get_count}
use simple_network.Buffer.Circle.Index.{IsSize, size_pos, gap, get_count_at-eq, gap-advance}

pub record IsValid (c : Circle) : Type 0 where
  pub sized : IsSize (size c)
  pub bounded : c.block.max_size ≤ 2 ^ 30
  pub head_in : c.head < size c
  pub tail_in : c.tail < size c

pub moved :
    {c : Circle} (h t : ℕ)
    → IsValid c
    → h < size c
    → t < size c
    → IsValid (record c { head = h; tail = t })
moved h t v p q = record { sized = v.sized; bounded = v.bounded; head_in = p; tail_in = q }

-- The byte `j` places after `head_`, going round.
unfoldable pub byte : Circle → ℕ → ℕ
byte c j = get_or c.block.mem ((c.head + j) % size c) 0

-- The `n` bytes from offset `o` on.
abbrev pub range : Circle → ℕ → ℕ → Bytes
range c o n = tabulate n (λ j. byte c (o + j))

abbrev pub count : Circle → ℕ
count c = gap c.head c.tail (size c)

-- The bytes that the buffer holds, the oldest first.
abbrev pub contents : Circle → Bytes
contents c = tabulate (count c) (byte c)

module _ {c : Circle} (v : IsValid c) where
  pub count-lt : count c < size c
  count-lt = ground (arith, v.head_in, v.tail_in)

  pub get_count-eq : get_count c ≡ count c
  unfolding get_count
  get_count-eq = get_count_at-eq v.sized c.head c.tail v.head_in v.tail_in

pub length-contents : (c : Circle) → length (contents c) ≡ count c
length-contents c = length-tabulate _ _

pub range-split : (c : Circle) (o m n : ℕ) → range c o (m + n) ≡ range c o m ++ range c (o + m) n
range-split c o m n =
    tabulate-add m n (λ j. byte c (o + j))
    ∙ ap (◌++◌ (range c o m)) (tabulate_ext n _ _ (λ i hi. ap (byte c) (omega arith)))

pub contents-range : (c : Circle) → contents c ≡ range c 0 (count c)
contents-range c = tabulate_ext (count c) _ _ (λ i hi. ap (byte c) (omega arith))

pub contents-split :
    (c : Circle) (n : ℕ) → n ≤ count c → contents c ≡ range c 0 n ++ range c n (count c - n)
contents-split c n h =
    contents-range c
    ∙ ap (λ k. range c 0 k) {x = count c} {y = n + (count c - n)} (omega arith)
    ∙ range-split c 0 n (count c - n)
    ∙ ap (λ k. range c 0 n ++ range c k (count c - n)) {x = 0 + n} {y = n} (omega arith)

pub take-contents : (c : Circle) (n : ℕ) → n ≤ count c → take n (contents c) ≡ range c 0 n
take-contents c n h = ap (take n) (contents-split c n h) ∙ take-append n _ _ (length-tabulate n _)

pub drop-contents :
    (c : Circle) (n : ℕ) → n ≤ count c → drop n (contents c) ≡ range c n (count c - n)
drop-contents c n h = ap (drop n) (contents-split c n h) ∙ drop-append n _ _ (length-tabulate n _)

-- The bytes at an offset, in terms of the contents.
pub range-contents :
    (c : Circle) (o n : ℕ) → o + n ≤ count c → range c o n ≡ take n (drop o (contents c))
range-contents c o n h = sym (
    ap (take n) (
      drop-contents c o (omega arith)
      ∙ ap (λ k. range c o k) {x = count c - o} {y = n + (count c - o - n)} (omega arith)
      ∙ range-split c o n (count c - o - n))
    ∙ take-append n _ _ (length-tabulate n _))

-- The buffer with its first `n` bytes passed over.
abbrev pub advance : Circle → ℕ → Circle
advance c n = record c { head = (c.head + n) % size c }

pub byte-advance : (c : Circle) (n j : ℕ) → byte (advance c n) j ≡ byte c (n + j)
unfolding byte
byte-advance c n j =
    ap (λ k. get_or c.block.mem k 0)
      (mod-add-mod (c.head + n) (size c) j
        ∙ ap (λ (t : ℕ). t % size c) {x = c.head + n + j} {y = c.head + (n + j)} (omega arith))

module _ {c : Circle} (n : ℕ) (v : IsValid c) (h : n ≤ count c) where
  pub count-advance : count (advance c n) ≡ count c - n
  count-advance = gap-advance c.head c.tail (size c) n v.head_in v.tail_in h

  pub advance-IsValid : IsValid (advance c n)
  advance-IsValid = moved _ _ v (mod-lt (c.head + n) (size_pos v.sized)) v.tail_in

  pub contents-advance : contents (advance c n) ≡ drop n (contents c)
  contents-advance =
      ap (λ k. tabulate k (byte (advance c n))) count-advance
      ∙ tabulate_ext (count c - n) _ _ (λ i hi. byte-advance c n i)
      ∙ sym (drop-contents c n h)
