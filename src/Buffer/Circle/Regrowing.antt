-- ===== src/Buffer/Circle/Regrowing.antt =====
-- What growing does for `circle::write` at the offset -1.
use native.Mathlib.Nat.{pow-suc, one-le-pow}
use simple_network.Base.{
  ℕ, suc, ◌+◌, ◌-◌, ◌*◌, ◌^◌, ◌≤◌, ◌<◌, ◌≡◌, ◌≢◌, sym, ap, ◌∙◌, ◌⊎◌, inl, inr, length, npos, Bytes,
  ok, arith, lt→ltb,
}
use simple_network.Buffer.Circle.{Circle, size, expand, write_back, write}
use simple_network.Buffer.Circle.Valid.{IsValid, count, contents, length-contents}
use simple_network.Buffer.Circle.Growing.{expand_lem, get_space-free, get_space-full}

-- The sizes that the block takes as it grows: none is one above the number of bytes to write.
abbrev pub Unstuck : Circle → ℕ → Type 0
Unstuck c n = (0 < count c) ⊎ ((j : ℕ) → n + 1 ≢ size c * 4 ^ j)

pub Unstuck-lt : (c : Circle) (n : ℕ) → Unstuck c n → count c + n < size c → n + 1 < size c
Unstuck-lt c n (inl some) h = omega arith
Unstuck-lt c n (inr u) h = omega (arith, u 0)

-- What growing leaves of the conditions of an append.
pub record Regrown (c c1 : Circle) : Type 0 where
  pub valid : IsValid c1
  pub same : contents c1 ≡ contents c
  pub counted : count c1 ≡ count c
  pub four : size c1 ≡ size c * 4
  pub front : c1.head ≡ 0
  pub back : c1.tail ≡ count c
  pub limit : c1.block.max_size ≡ c.block.max_size

pub regrow :
    {c : Circle}
    → IsValid c
    → size c * 4 < c.block.max_size
    → (c1 : Circle) × (expand c ≡ ok c1) × Regrown c c1
regrow {c} v h =
    let (c1, grows, valid, same, four, front, back, limit) = expand_lem v h in
    (
      c1,
      grows,
      record {
        valid = valid;
        same = same;
        counted = sym (length-contents c1) ∙ ap length same ∙ length-contents c;
        four = four;
        front = front;
        back = back;
        limit = limit;
      },
    )

pub Unstuck-Regrown : {c c1 : Circle} (n : ℕ) → Regrown c c1 → Unstuck c n → Unstuck c1 n
Unstuck-Regrown n r (inl some) = inl (omega (arith, r.counted))
Unstuck-Regrown {c} {c1} n r (inr u) = inr (λ j e. u (suc j) (
    omega (
      arith,
      e,
      pow-suc 4 j,
      ap (λ (t : ℕ). t * 4 ^ j) r.four,
      ap (λ (t : ℕ). size c * t) (pow-suc 4 j),
    )))

-- `write` of more bytes than are free grows the buffer once and starts again.
pub append-grows :
    {c c1 : Circle} (fuel : ℕ) (bs : Bytes)
    → IsValid c
    → count c + 1 < size c
    → size c ≤ count c + length bs
    → expand c ≡ ok c1
    → write (suc fuel) c bs npos ≡ write fuel c1 bs npos
unfolding write write_back
append-grows {c} fuel bs v free h e =
    rw (get_space-free fuel v free, lt→ltb (size c - 1 - count c) (length bs) (omega arith), e)

-- On a full buffer `get_space` grows it, and `write` goes on with the larger one.
pub append-full :
    {c c1 : Circle} (fuel : ℕ) (bs : Bytes)
    → IsValid c
    → count c + 1 ≡ size c
    → expand c ≡ ok c1
    → IsValid c1
    → count c1 + 1 < size c1
    → write (suc (suc fuel)) c bs npos ≡ write (suc (suc fuel)) c1 bs npos
unfolding write write_back
append-full {c} fuel bs v full e v1 free = rw (
  get_space-full (suc fuel) v full,
  e,
  get_space-free fuel v1 free,
  get_space-free (suc fuel) v1 free,
)

pub grow_room : (s k : ℕ) → (s * 4 ^ suc k ≡ s * 4 * 4 ^ k) × (s * 4 ≤ s * 4 * 4 ^ k)
grow_room s k = (omega (arith, ap (λ (t : ℕ). s * t) (pow-suc 4 k)), grind (arith, one-le-pow k 4))
