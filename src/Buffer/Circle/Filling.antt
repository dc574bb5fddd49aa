-- ===== src/Buffer/Circle/Filling.antt =====
-- Bytes that are put behind the tail from outside, as asio does: `get_end`, and then `written`.
use simple_network.Base.{
  ℕ, suc, ◌+◌, ◌-◌, ◌%◌, ◌≤◌, ◌<◌, min, ◌≡◌, sym, ap, ap₂, subst, ◌∙◌, ◌++◌, length, add64, Bytes,
  splice, ok, arith, length-splice, splice-end, ne→==, [], append-nil, take, take-whole,
}
use simple_network.Buffer.Circle.{Circle, size, written, get_continguious_space}
use simple_network.Buffer.Circle.Index.{get_continguious_space_at-eq}
use simple_network.Buffer.Circle.Valid.{IsValid, count, contents, length-contents}
use simple_network.Buffer.Circle.Moves.{written_lem}
use simple_network.Buffer.Circle.Placing.{overwrite, overwrite-IsValid, contents-overwrite}
use simple_network.Buffer.Circle.Appending.{end-place}

-- The bytes put there, before `written`.
abbrev pub put_behind : Circle → Bytes → Circle
put_behind c bs = record c { block = record c.block { mem = splice c.block.mem c.tail bs } }

-- Bytes put behind the tail, in free space that does not go round the end of the block, are held behind
-- the others after `written`.
pub fill_lem :
    {c : Circle} (bs : Bytes)
    → IsValid c
    → count c + length bs < size c
    → c.tail + length bs ≤ size c
    → IsValid (written (put_behind c bs) (length bs))
      × (contents (written (put_behind c bs) (length bs)) ≡ contents c ++ bs)
unfolding written
fill_lem {c} bs v h inside =
    let (valid, more, front) = written_lem (length bs) v h in
    let c₁ = written c (length bs) in
    (
      subst IsValid same (overwrite-IsValid ((c.head + count c) % size c) bs valid),
      ap contents (sym same)
          ∙ contents-overwrite (count c) bs valid (omega (arith, more)) (omega (arith, end-place v))
          ∙ splice-end (contents c₁) (count c) bs (omega (arith, length-contents c₁, more))
          ∙ ap (λ xs. xs ++ bs) front,
    )
  where
    same :
        overwrite (written c (length bs)) ((c.head + count c) % size c) bs
        ≡ written (put_behind c bs) (length bs)
    same =
        ap₂
          (λ p n. record {
            block = record c.block { mem = splice c.block.mem p bs };
            head = c.head;
            tail = add64 c.tail (length bs) % n;
          })
          (end-place v) (sym (length-splice c.block.mem c.tail bs))

-- No bytes put there change nothing that is held.
pub fill-none :
    {c : Circle} → IsValid c → IsValid (put_behind c []) × (contents (put_behind c []) ≡ contents c)
fill-none {c} v = (
  overwrite-IsValid c.tail [] v,
  ap (λ p. contents (overwrite c p [])) (sym (end-place v))
      ∙ contents-overwrite (count c) [] v (omega arith) (omega (arith, v.tail_in, end-place v))
      ∙ splice-end (contents c) (count c) [] (omega (arith, length-contents c))
      ∙ append-nil (take (count c) (contents c))
      ∙ take-whole (count c) (contents c) (length-contents c),
)

-- The space that is asked for.
pub space-there :
    {c : Circle} (fuel : ℕ)
    → IsValid c
    → count c + 1 < size c
    → get_continguious_space (suc fuel) c ≡ ok (min (size c - 1 - count c) (size c - c.tail), c)
unfolding get_continguious_space
space-there {c} fuel v h = rw (
  get_continguious_space_at-eq v.sized c.head c.tail v.head_in v.tail_in,
  ne→== (min (size c - 1 - count c) (size c - c.tail)) 0 (omega (arith, v.tail_in)),
)
