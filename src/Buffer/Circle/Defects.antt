-- ===== src/Buffer/Circle/Defects.antt =====
-- Appends for which `circle::write` fails though the bytes fit: its copying part takes the free room
-- behind the bytes already counted for the room at the place that it writes to.
use simple_network.Base.{
  ℕ, zero, suc, ◌+◌, ◌-◌, ◌<◌, ◌≡◌, refl, ap, ◌∙◌, length, npos, Bytes, fault, out_of_fuel, arith,
  le→ltb,
}
use simple_network.Buffer.Circle.{Circle, size, written, write_at, write_back, write}
use simple_network.Buffer.Circle.Valid.{IsValid, count, get_count-eq}
use simple_network.Buffer.Circle.Moves.{written_lem}
use simple_network.Buffer.Circle.Writing.{write_at-past_end, write_at-stuck, write-stuck}
use simple_network.Buffer.Circle.Growing.{get_space-free}
use simple_network.Buffer.Circle.Appending.{end-place}

-- An append that fits is the copying part, behind the bytes held.
append-place :
    (fuel : ℕ) {c : Circle} (bs : Bytes)
    → IsValid c
    → 0 < length bs
    → count c + length bs < size c
    → write (suc fuel) c bs npos
      ≡ write_at (λ c bs o. write fuel c bs o) (written c (length bs)) bs (count c)
unfolding write write_back
append-place fuel {c} bs v pos h = rw (
  get_space-free fuel v (omega arith),
  le→ltb (size c - 1 - count c) (length bs) (omega arith),
  get_count-eq v,
)

-- An append that fits, but whose bytes go round the end of the block, writes past the block, unless
-- it starts within as many bytes of the start as it writes.
pub append-past_end :
    {c : Circle} (fuel : ℕ) (bs : Bytes)
    → IsValid c
    → 0 < length bs
    → count c + length bs < size c
    → size c < c.tail + length bs
    → length bs + 1 < c.tail
    → write (suc fuel) c bs npos ≡ fault
unfolding written
append-past_end {c} fuel bs v pos h past far =
    append-place fuel bs v pos h
    ∙ write_at-past_end fuel (count c) bs facts.0 (omega (arith, facts.1))
        (omega (arith, end-place v)) (omega (arith, end-place v, facts.1))
  where
    facts : IsValid (written c (length bs)) × (count (written c (length bs)) ≡ count c + length bs)
    facts = let (valid, more, old) = written_lem (length bs) v h in (valid, more)

-- An append to an empty buffer of as many bytes as it can hold never returns, on any fuel.
pub append-stuck :
    {c : Circle} (fuel : ℕ) (bs : Bytes)
    → IsValid c
    → count c ≡ 0
    → 0 < length bs
    → length bs + 1 ≡ size c
    → write fuel c bs npos ≡ out_of_fuel
unfolding write written
append-stuck zero bs v empty pos h = refl
append-stuck {c} (suc fuel) bs v empty pos h =
    append-place fuel bs v pos (omega arith)
    ∙ ap (λ o. write_at (λ c bs o. write fuel c bs o) c1 bs o) empty
    ∙ write_at-stuck fuel bs facts.0 pos (omega (arith, facts.1)) (omega (arith, facts.1))
    ∙ write-stuck fuel bs facts.0 pos (omega (arith, facts.1)) (omega (arith, facts.1))
  where
    c1 : Circle
    c1 = written c (length bs)

    facts : IsValid c1 × (count c1 ≡ count c + length bs)
    facts = let (valid, more, old) = written_lem (length bs) v (omega arith) in (valid, more)
