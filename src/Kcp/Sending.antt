-- ===== src/Kcp/Sending.antt =====
-- The sending side of kcp/socket.h: the pieces of the send buffer go to kcp in order.
use simple_network.Base.{
  ℕ, zero, suc, ◌-◌, ◌≤◌, ◌<◌, ◌≡◌, refl, sym, ap, ◌∙◌, inl, inr, List, [], ◌∷◌, ◌++◌, length, take,
  drop, Bytes, ok, some, arith, load, lt→ltb, le→ltb, lt-or-le, take-append-drop, length-drop,
  take-whole,
}
use simple_network.Buffer.Circle.{Circle, get_continguious_count, remove}
use simple_network.Buffer.Circle.Valid.{
  IsValid, count, contents, count-lt, get_count-eq, length-contents,
}
use simple_network.Buffer.Circle.Moves.{remove_lem}
use simple_network.Buffer.Circle.Growing.{first, load-first, front}
use simple_network.Kcp.{Ikcp, do_write}

-- The messages in order, and all their bytes.
abbrev pub send_all : {K : Type 0} → Ikcp K → K → List Bytes → K
send_all i k [] = k
send_all i k (b ∷ bs) = send_all i (i.send k b) bs

abbrev pub joined : List Bytes → Bytes
joined [] = []
joined (b ∷ bs) = b ++ joined bs

-- `do_write` of a valid send buffer, with fuel above the number of bytes, sends messages that together
-- are the bytes held, in order, and leaves the buffer valid and empty.
pub do_write-messages :
    {K : Type 0} (i : Ikcp K) (fuel : ℕ) (k : K) (c : Circle)
    → IsValid c
    → count c < fuel
    → (messages : List Bytes) × (c' : Circle) × (do_write i fuel (some k) c
        ≡ ok (some (send_all i k messages), c'))
      × (joined messages ≡ contents c)
      × IsValid c'
      × (count c' ≡ 0)
unfolding do_write
do_write-messages i zero k c v more = absurd (omega arith)
do_write-messages i (suc fuel) k c v more = elim (lt-or-le 0 (count c)) [
  | inl some_left ↦
      let (valid, rest) = remove_lem n v n-le in
      let (messages, c', run, all, valid', done) =
        do_write-messages i fuel (i.send k (take n (contents c))) (remove c n) valid
          (omega (arith, left rest, v.head_in)) in
      (
        take n (contents c) ∷ messages,
        c',
        rw (get_count-eq v, lt→ltb 0 (count c) some_left, load-front, run),
        ap (◌++◌ (take n (contents c))) (all ∙ rest) ∙ take-append-drop n (contents c),
        valid',
        done,
      )
  | inr empty ↦ (
    [],
    c,
    rw (get_count-eq v, le→ltb 0 (count c) empty),
    sym (nothing (contents c) (omega (arith, length-contents c))),
    v,
    omega arith,
  )
]
  where
    n : ℕ
    n = get_continguious_count c

    n-first : n ≡ first c
    n-first = omega (arith, front v)

    n-le : n ≤ count c
    n-le = omega (arith, front v)

    load-front : load c.block.mem c.head n ≡ ok (take n (contents c))
    load-front =
        ap (load c.block.mem c.head) n-first
        ∙ load-first v
        ∙ ap (λ k. ok (take k (contents c))) (sym n-first)

    left : contents (remove c n) ≡ drop n (contents c) → count (remove c n) ≡ count c - first c
    left rest =
        sym (length-contents (remove c n))
        ∙ ap length rest
        ∙ length-drop n (contents c)
        ∙ omega (arith, length-contents c, n-first)

    nothing : (xs : Bytes) → length xs ≡ 0 → xs ≡ []
    nothing [] e = refl
    nothing (x ∷ xs) e = absurd (omega arith)

-- Bytes that start the block of the send buffer go to kcp as one message.
pub do_write-one :
    {K : Type 0} (i : Ikcp K) (fuel : ℕ) (k : K) (c : Circle)
    → IsValid c
    → c.head ≡ 0
    → 0 < count c
    → 1 < fuel
    → (c' : Circle) × (do_write i fuel (some k) c ≡ ok (some (i.send k (contents c)), c'))
      × IsValid c'
      × (count c' ≡ 0)
unfolding do_write
do_write-one i zero k c v start some_bytes more = absurd (omega arith)
do_write-one i (suc zero) k c v start some_bytes more = absurd (omega arith)
do_write-one i (suc (suc fuel)) k c v start some_bytes more =
    let (valid, rest) = remove_lem n v (omega (arith, all)) in
    let empty : count (remove c n) ≡ 0 =
      sym (length-contents (remove c n))
      ∙ ap length rest
      ∙ length-drop n (contents c)
      ∙ omega (arith, length-contents c, all) in
    (
      remove c n,
      rw (
        get_count-eq v,
        lt→ltb 0 (count c) some_bytes,
        load-all,
        get_count-eq valid,
        le→ltb 0 (count (remove c n)) (omega (arith, empty)),
      ),
      valid,
      empty,
    )
  where
    n : ℕ
    n = get_continguious_count c

    all : n ≡ count c
    all = omega (arith, front v, count-lt v)

    load-all : load c.block.mem c.head n ≡ ok (contents c)
    load-all =
        ap (load c.block.mem c.head) {x = n} {y = first c} (omega (arith, front v))
        ∙ load-first v
        ∙ ap ok (take-whole (first c) (contents c) (omega (arith, length-contents c, count-lt v)))
