-- ===== src/Buffer/Circle/Tests.antt =====
-- The circle on small buffers: runs, and the theorems at concrete inputs.
use simple_network.Base.{
  ◌+◌, ◌-◌, ◌*◌, ◌^◌, ◌≡◌, refl, inl, true, [], ◌∷◌, tabulate, take, drop, npos, slice, splice,
  load, store, ok, err, fault, out_of_fuel, read_invalid_offset, write_invalid_offset,
  write_no_space, arith,
}
use simple_network.Buffer.Circle.{
  Circle, size, make, get_count, get_count_at, get_continguious_count_at, get_continguious_space_at,
  remove, written, remove_from_back, expand, get_space, read, read_step, write, write_at,
  write_back,
}
use simple_network.Buffer.Circle.Index.{
  IsSize, get_continguious_count_at-eq, get_continguious_space_at-eq,
}
use simple_network.Buffer.Circle.Valid.{IsValid, byte, count, contents}
use simple_network.Buffer.Circle.Moves.{
  make-IsValid, remove_lem, written_lem, remove_from_back_lem, remove_from_back_wraps,
}
use simple_network.Buffer.Circle.Reading.{read-peek, read-front, read-short}
use simple_network.Buffer.Circle.Writing.{write-offset, write-beyond, write-stuck}
use simple_network.Buffer.Circle.Growing.{expand_lem}
use simple_network.Buffer.Circle.Appending.{Appended, write-append, write-no_room}
use simple_network.Buffer.Circle.Defects.{append-past_end, append-stuck}

-- Eight bytes, of which the five from index 6 on are held: 6, 7, 0, 1, 2.
abbrev wrapped : Circle
wrapped = record {
  block = record { mem = 10 ∷ 11 ∷ 12 ∷ 13 ∷ 14 ∷ 15 ∷ 16 ∷ 17 ∷ []; max_size = 512 };
  head = 6;
  tail = 3;
}

-- The same block with the three from index 1 on.
abbrev inner : Circle
inner = record wrapped { head = 1; tail = 4 }

-- With nothing held, at index 0, and at index 7.
abbrev empty : Circle
empty = record wrapped { head = 0; tail = 0 }

abbrev near_end : Circle
near_end = record wrapped { head = 6; tail = 7 }

-- The three from index 0 on, in a block that may not grow.
abbrev bounded : Circle
bounded = record { block = record wrapped.block { max_size = 32 }; head = 0; tail = 3 }

abbrev full : Circle
full = record wrapped { head = 0; tail = 7 }

eight : IsSize 8
eight = record { bits = 3; power = refl; small = omega arith }

wrapped-IsValid : IsValid wrapped
wrapped-IsValid = record {
  sized = eight;
  bounded = omega arith;
  head_in = omega arith;
  tail_in = omega arith;
}

inner-IsValid : IsValid inner
inner-IsValid = record {
  sized = eight;
  bounded = omega arith;
  head_in = omega arith;
  tail_in = omega arith;
}

empty-IsValid : IsValid empty
empty-IsValid = record {
  sized = eight;
  bounded = omega arith;
  head_in = omega arith;
  tail_in = omega arith;
}

near_end-IsValid : IsValid near_end
near_end-IsValid = record {
  sized = eight;
  bounded = omega arith;
  head_in = omega arith;
  tail_in = omega arith;
}

bounded-IsValid : IsValid bounded
bounded-IsValid = record {
  sized = eight;
  bounded = omega arith;
  head_in = omega arith;
  tail_in = omega arith;
}

full-IsValid : IsValid full
full-IsValid = record {
  sized = eight;
  bounded = omega arith;
  head_in = omega arith;
  tail_in = omega arith;
}

contents-wrapped : contents wrapped ≡ 16 ∷ 17 ∷ 10 ∷ 11 ∷ 12 ∷ []
unfolding tabulate byte
contents-wrapped = refl

read_runs :
    read 9 wrapped 5 npos true ≡ ok (16 ∷ 17 ∷ 10 ∷ 11 ∷ 12 ∷ [], record wrapped { head = 3 })
unfolding read read_step get_count get_count_at get_continguious_count_at load slice tabulate
read_runs = refl

write_runs :
    write 9 inner (20 ∷ 21 ∷ []) npos
    ≡ ok (record {
      block = record { mem = 10 ∷ 11 ∷ 12 ∷ 13 ∷ 20 ∷ 21 ∷ 16 ∷ 17 ∷ []; max_size = 512 };
      head = 1;
      tail = 6;
    })
unfolding write write_back write_at get_space get_count get_count_at get_continguious_space_at
    written store splice tabulate
write_runs = refl

get_continguious_count_at-eq_example : get_continguious_count_at 6 3 8 ≡ 2
get_continguious_count_at-eq_example =
    get_continguious_count_at-eq eight 6 3 (omega arith) (omega arith)

get_continguious_space_at-eq_example : get_continguious_space_at 6 3 8 ≡ 2
get_continguious_space_at-eq_example =
    get_continguious_space_at-eq eight 6 3 (omega arith) (omega arith)

make-IsValid_example : IsValid (make 512 8) × (contents (make 512 8) ≡ [])
make-IsValid_example = make-IsValid 512 8 eight (omega arith)

remove_lem_example :
    IsValid (remove wrapped 3) × (contents (remove wrapped 3) ≡ drop 3 (contents wrapped))
remove_lem_example = remove_lem 3 wrapped-IsValid (omega arith)

written_lem_example :
    IsValid (written inner 2)
    × (count (written inner 2) ≡ 3 + 2)
    × (take 3 (contents (written inner 2)) ≡ contents inner)
written_lem_example = written_lem 2 inner-IsValid (omega arith)

remove_from_back_lem_example :
    IsValid (remove_from_back wrapped 2)
    × (contents (remove_from_back wrapped 2) ≡ take (5 - 2) (contents wrapped))
remove_from_back_lem_example = remove_from_back_lem 2 wrapped-IsValid (omega arith) (omega arith)

remove_from_back_wraps_example : (remove_from_back wrapped 4).tail ≡ 2 ^ 64 - (4 - 3)
remove_from_back_wraps_example =
    remove_from_back_wraps 4 wrapped-IsValid (omega arith) (omega arith)

read-peek_example : read 4 wrapped 3 1 true ≡ ok (take 3 (drop 1 (contents wrapped)), wrapped)
read-peek_example = read-peek 4 3 1 wrapped-IsValid (omega arith) (omega arith)

read-front_example :
    (c' : Circle) × (read 5 wrapped 4 npos true ≡ ok (take 4 (contents wrapped), c'))
    × IsValid c'
    × (contents c' ≡ drop 4 (contents wrapped))
read-front_example = read-front 5 4 true wrapped-IsValid (omega arith) (omega arith)

read-short_example : read 2 wrapped 4 2 true ≡ err read_invalid_offset
read-short_example = read-short 1 4 2 true wrapped-IsValid (omega arith) (omega arith)

write-offset_example :
    (c' : Circle) × (write 3 inner (7 ∷ 8 ∷ []) 1 ≡ ok c')
    × IsValid c'
    × (contents c' ≡ splice (contents inner) 1 (7 ∷ 8 ∷ []))
    × (size c' ≡ 8)
    × (c'.head ≡ 1)
    × (c'.block.max_size ≡ 512)
write-offset_example =
    write-offset 3 1 (7 ∷ 8 ∷ []) inner-IsValid (omega arith) (omega arith) (omega arith)
      (omega arith)

write-beyond_example : write 2 inner (7 ∷ 8 ∷ []) 2 ≡ err write_invalid_offset
write-beyond_example = write-beyond 1 2 (7 ∷ 8 ∷ []) inner-IsValid (omega arith) (omega arith)

write-stuck_example : write 100 full (7 ∷ []) 0 ≡ out_of_fuel
write-stuck_example =
    write-stuck 100 (7 ∷ []) full-IsValid (omega arith) (omega arith) (omega arith)

expand_lem_example :
    (c' : Circle) × (expand wrapped ≡ ok c')
    × IsValid c'
    × (contents c' ≡ contents wrapped)
    × (size c' ≡ 8 * 4)
    × (c'.head ≡ 0)
    × (c'.tail ≡ 5)
    × (c'.block.max_size ≡ 512)
expand_lem_example = expand_lem wrapped-IsValid (omega arith)

write-append_example :
    (c' : Circle) × (write 6 wrapped (1 ∷ 2 ∷ 3 ∷ 4 ∷ []) npos ≡ ok c')
    × Appended 1 wrapped (1 ∷ 2 ∷ 3 ∷ 4 ∷ []) c'
write-append_example =
    write-append 1 6 wrapped (1 ∷ 2 ∷ 3 ∷ 4 ∷ []) wrapped-IsValid (omega arith) (omega arith)
      (omega arith) (omega arith) (λ h. omega arith) (inl (omega arith))

write-no_room_example : write 2 bounded (1 ∷ 2 ∷ 3 ∷ 4 ∷ 5 ∷ []) npos ≡ err write_no_space
write-no_room_example =
    write-no_room 1 (1 ∷ 2 ∷ 3 ∷ 4 ∷ 5 ∷ []) bounded-IsValid (omega arith) (omega arith)

append-past_end_example : write 5 near_end (1 ∷ 2 ∷ []) npos ≡ fault
append-past_end_example =
    append-past_end 4 (1 ∷ 2 ∷ []) near_end-IsValid (omega arith) (omega arith) (omega arith)
      (omega arith)

append-stuck_example : write 100 empty (1 ∷ 2 ∷ 3 ∷ 4 ∷ 5 ∷ 6 ∷ 7 ∷ []) npos ≡ out_of_fuel
append-stuck_example =
    append-stuck 100 (1 ∷ 2 ∷ 3 ∷ 4 ∷ 5 ∷ 6 ∷ 7 ∷ []) empty-IsValid refl (omega arith) refl
