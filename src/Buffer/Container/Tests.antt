-- ===== src/Buffer/Container/Tests.antt =====
-- The same calls on the three containers: the theorem at concrete inputs.
use simple_network.Base.{
  ok-injective, ℕ, ◌+◌, ◌≤◌, ◌<◌, ◌≡◌, refl, sym, ap, ◌∙◌, List, [], ◌∷◌, Bytes, slice, tabulate,
  arith, tt, length, length-append, replicate, none,
}
use simple_network.Buffer.Circle.{Circle}
use simple_network.Buffer.Circle.Index.{IsSize}
use simple_network.Buffer.Circle.Valid
use simple_network.Buffer.Array.{Array}
use simple_network.Buffer.Array.Laws as ArrayLaws
use simple_network.Buffer.Bip.{Bip}
use simple_network.Buffer.Bip.Laws as BipLaws
use simple_network.Buffer.Container.{Container, circle, array, bip}
use simple_network.Buffer.Container.Queue.{Queue, Op, push, pop, skip, clear, replay, Admissible}
use simple_network.Buffer.Container.Queues.{
  circle_queue, array_queue, bip_queue, Agrees, containers-Refine,
}

abbrev calls : List Op
calls =
    push (1 ∷ 2 ∷ 3 ∷ [])
    ∷ pop 2
    ∷ push (4 ∷ 5 ∷ [])
    ∷ skip 1
    ∷ pop 1
    ∷ clear
    ∷ push (6 ∷ [])
    ∷ pop 1
    ∷ []

replay_runs : (replay calls []).0 ≡ (1 ∷ 2 ∷ []) ∷ (4 ∷ []) ∷ (6 ∷ []) ∷ []
unfolding replay
replay_runs = refl

-- A write, and a read of what is there then.
push-pop-Admissible :
    {C : Type 0} (i : Container C) (q : Queue i) (fuel n : ℕ) (bs : Bytes) (c : C)
    → q.IsValid c
    → 0 < length bs
    → length bs < fuel
    → q.Room c (length bs)
    → n < fuel
    → n ≤ length (q.contents c) + length bs
    → Admissible i q fuel (push bs ∷ pop n ∷ []) c
push-pop-Admissible {C} i q fuel n bs c v some_bytes enough room enough' there =
    let (c₁, first, v₁, held) = q.write_law fuel c bs v some_bytes enough room in
    (
      some_bytes,
      enough,
      room,
      λ c' run. (
        enough',
        omega (
          arith,
          same_length c' c₁ (ok-injective (sym run ∙ first)),
          ap length held,
          length-append (q.contents c) bs,
        ),
        λ out d e. tt,
      ),
    )
  where
    same_length : (c' c₁ : C) → c' ≡ c₁ → length (q.contents c') ≡ length (q.contents c₁)
    same_length c' c₁ e = ap (λ d. length (q.contents d)) e

abbrev a_circle : Circle
a_circle = record {
  block = record { mem = 7 ∷ 8 ∷ replicate 6 0; max_size = 4096 };
  head = 0;
  tail = 2;
}

abbrev an_array : Array
an_array = record {
  block = record { mem = 7 ∷ 8 ∷ replicate 6 0; max_size = 4096 };
  head = 0;
  tail = 2;
}

abbrev a_bip : Bip
a_bip = record {
  block = record { mem = 7 ∷ 8 ∷ replicate 6 0; max_size = 4096 };
  region_a_start = 0;
  region_a_count = 2;
  region_b_start = none;
  region_b_count = 0;
}

eight : IsSize 8
eight = record { bits = 3; power = refl; small = omega arith }

a_circle-IsValid : Valid.IsValid a_circle
a_circle-IsValid = record {
  sized = eight;
  bounded = omega arith;
  head_in = omega arith;
  tail_in = omega arith;
}

an_array-IsValid : ArrayLaws.IsValid an_array
an_array-IsValid = record {
  bounded = omega arith;
  sized = omega arith;
  head_in = omega arith;
  tail_in = omega arith;
}

a_bip-IsValid : BipLaws.IsValid a_bip
a_bip-IsValid = record {
  bounded = omega arith;
  sized = omega arith;
  a_in = omega arith;
  b_in = refl;
}

containers-Refine_example :
    Agrees circle circle_queue 9 (push (1 ∷ 2 ∷ []) ∷ pop 3 ∷ []) a_circle
    × Agrees array array_queue 9 (push (1 ∷ 2 ∷ []) ∷ pop 3 ∷ []) an_array
    × Agrees bip bip_queue 9 (push (1 ∷ 2 ∷ []) ∷ pop 3 ∷ []) a_bip
unfolding slice tabulate
containers-Refine_example =
    containers-Refine 9 (push (1 ∷ 2 ∷ []) ∷ pop 3 ∷ []) a_circle an_array a_bip a_circle-IsValid
      an_array-IsValid a_bip-IsValid
      (push-pop-Admissible circle circle_queue 9 3 (1 ∷ 2 ∷ []) a_circle a_circle-IsValid
        (omega arith) (omega arith) (omega arith, omega arith, omega arith) (omega arith)
        (omega (arith, Valid.length-contents a_circle)))
      (push-pop-Admissible array array_queue 9 3 (1 ∷ 2 ∷ []) an_array an_array-IsValid
        (omega arith) (omega arith) (omega arith, omega arith) (omega arith) (omega arith))
      (push-pop-Admissible bip bip_queue 9 3 (1 ∷ 2 ∷ []) a_bip a_bip-IsValid (omega arith)
        (omega arith) (omega arith) (omega arith) (omega arith))
