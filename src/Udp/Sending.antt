-- ===== src/Udp/Sending.antt =====
-- The sending side of udp/socket.h: one datagram for all that the send buffer holds.
use native.Mathlib.Nat.{mod_self}
use simple_network.Base.{
  ℕ, ◌+◌, ◌-◌, ◌%◌, ◌≤◌, ◌<◌, ◌≡◌, refl, sym, ap, ◌∙◌, inl, inr, ◌≢◌, false, [], ◌∷◌, ◌++◌, length,
  take, drop, sub64, add64, Bytes, ok, arith, load, load-ok, store-ok, splice, slice, length-splice,
  splice-splice, slice-splice_same, length-take, length-drop, take-whole, length-replicate, eq→==,
  ne→==, eq-or-ne,
}
use simple_network.Buffer.Circle.{Circle, size, get_continguious_count, remove, reset}
use simple_network.Buffer.Circle.Valid.{
  IsValid, count, contents, count-lt, get_count-eq, length-contents,
}
use simple_network.Buffer.Circle.Moves.{remove_lem}
use simple_network.Buffer.Circle.Growing.{first, load-first, front}
use simple_network.Connection.{World, Hooks, with_send}
use simple_network.Udp.{Port, datagram_size, gather, stack_buff, with_port, do_write}

length-stack_buff : length stack_buff ≡ datagram_size
unfolding stack_buff
length-stack_buff = length-replicate {A = ℕ} datagram_size 0

-- All bytes in one piece, for a buffer that fits into a datagram: the piece and the buffer that
-- `gather` leaves.
gather-contents :
    (c : Circle)
    → IsValid c
    → count c ≤ datagram_size
    → (c' : Circle) × (gather c ≡ ok (contents c, c')) × (reset c' ≡ reset c)
unfolding gather reset remove
gather-contents c v small = elim (eq-or-ne (count c) (get_continguious_count c)) [
  | inl one ↦ (c, rw (get_count-eq v, eq→== _ _ one, whole one), refl)
  | inr two ↦ (
    next,
    rw (
      get_count-eq v,
      ne→== _ _ two,
      load-front,
      store-ok stack_buff 0 (take n (contents c))
          (omega (arith, n-le, length-stack_buff, length-take n (contents c), length-contents c)),
      load-back two,
      place two,
      store-ok buff n (drop n (contents c))
          (omega (arith, n-le, length-buff, length-drop n (contents c), length-contents c)),
      joined,
      sent,
    ),
    refl,
  )
]
  where
    n : ℕ
    n = get_continguious_count c

    n-first : n ≡ first c
    n-first = omega (arith, front v)

    n-le : n ≤ count c
    n-le = omega (arith, front v)

    load-front : load c.block.mem c.head n ≡ ok (take n (contents c))
    load-front =
        ap (load c.block.mem c.head) n-first
        ∙ load-first v
        ∙ ap (λ k. ok (take k (contents c))) (sym n-first)

    next : Circle
    next = remove c n

    next-valid : IsValid next
    next-valid = (remove_lem n v n-le).0

    next-contents : contents next ≡ drop n (contents c)
    next-contents = (remove_lem n v n-le).1

    next-count : count next ≡ count c - n
    next-count =
        sym (length-contents next)
        ∙ ap length next-contents
        ∙ length-drop n (contents c)
        ∙ omega (arith, length-contents c)

    -- In two pieces, the second one starts the block.
    next-head : count c ≢ n → next.head ≡ 0
    next-head two =
        ap (λ (t : ℕ). t % size c) {x = add64 c.head n} {y = size c}
          (omega (arith, front v, v.head_in, v.sized.small))
        ∙ mod_self (size c)

    rest-eq : count c ≢ n → get_continguious_count next ≡ count c - n
    rest-eq two = omega (arith, front next-valid, next-head two, next-count, count-lt v)

    load-back :
        count c ≢ n
        → load c.block.mem next.head (get_continguious_count next) ≡ ok (drop n (contents c))
    load-back two =
        ap (load next.block.mem next.head) {x = get_continguious_count next} {y = first next}
          (omega (arith, front next-valid, rest-eq two, next-count))
        ∙ load-first next-valid
        ∙ ap ok (
            take-whole (first next) (contents next)
              (omega (arith, front next-valid, rest-eq two, next-count, length-contents next)))
        ∙ ap ok next-contents

    place : count c ≢ n → sub64 (count c) (get_continguious_count next) ≡ n
    place two = omega (arith, rest-eq two, n-le, v.sized.small, count-lt v)

    buff : Bytes
    buff = splice stack_buff 0 (take n (contents c))

    length-buff : length buff ≡ datagram_size
    length-buff = length-splice stack_buff 0 (take n (contents c)) ∙ length-stack_buff

    joined : splice buff n (drop n (contents c)) ≡ splice stack_buff 0 (contents c)
    joined =
        ap (λ p. splice buff p (drop n (contents c))) {x = n} {y = 0 + n} (omega arith)
        ∙ splice-splice stack_buff 0 n (contents c) (omega (arith, n-le, length-contents c))

    sent : load (splice stack_buff 0 (contents c)) 0 (count c) ≡ ok (contents c)
    sent =
        load-ok (splice stack_buff 0 (contents c)) 0 (count c)
          (omega (arith, length-splice stack_buff 0 (contents c), length-stack_buff))
        ∙ ap (λ k. ok (slice (splice stack_buff 0 (contents c)) 0 k)) (sym (length-contents c))
        ∙ ap ok (
            slice-splice_same stack_buff 0 (contents c)
              (omega (arith, length-contents c, length-stack_buff)))

    whole : count c ≡ get_continguious_count c → load c.block.mem c.head (count c) ≡ ok (contents c)
    whole one =
        ap (load c.block.mem c.head) {x = count c} {y = first c} (omega (arith, front v))
        ∙ load-first v
        ∙ ap ok (take-whole (first c) (contents c) (omega (arith, front v, length-contents c)))

-- `do_write` hands all that the send buffer holds to `send` as one datagram and empties the buffer, for
-- bytes in one or in two pieces that fit into a datagram, when `send` does not fail.
pub do_write-datagram :
    {E : Type 0} (h : Hooks (Port E)) (w : World (Port E))
    → IsValid w.out.send_buff
    → 0 < count w.out.send_buff
    → count w.out.send_buff ≤ datagram_size
    → do_write h false w
      ≡ ok (
          with_send
            (with_port w (record w.out.env {
              datagrams = w.out.env.datagrams ++ (contents w.out.send_buff ∷ []);
            }))
            (reset w.out.send_buff))
unfolding do_write
do_write-datagram {E} h w v pos small =
    let (c', run, same) = gather-contents w.out.send_buff v small in
    rw (get_count-eq v, ne→== (count w.out.send_buff) 0 (omega arith), run)
      (ap
        (λ c. ok (
          with_send
            (with_port w (record w.out.env {
              datagrams = w.out.env.datagrams ++ (contents w.out.send_buff ∷ []);
            }))
            c))
        same)
