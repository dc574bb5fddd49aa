-- ===== src/Buffer/Array/Tests.antt =====
-- The array on a small buffer: the theorems at concrete inputs.
use simple_network.Base.{◌-◌, ◌*◌, ◌≡◌, [], ◌∷◌, ◌++◌, take, drop, npos, ok, fault, min, arith}
use simple_network.Buffer.Array.{Array, size, make, remove, remove_from_back, expand, read, write}
use simple_network.Buffer.Array.Laws.{
  IsValid, contents, count, array_make-IsValid, remove-drop, remove_from_back-take, array_read-peek,
  array_read-front,
}
use simple_network.Buffer.Array.Defects.{array_write-past_end}
use simple_network.Buffer.Array.Writing.{array_expand-contents, array_write-fits}

-- Three bytes, behind two that are gone, in a block of six that may grow to sixteen.
abbrev held : Array
held = record {
  block = record { mem = 1 ∷ 2 ∷ 3 ∷ 4 ∷ 5 ∷ 0 ∷ []; max_size = 16 };
  head = 2;
  tail = 5;
}

held-IsValid : IsValid held
held-IsValid = record {
  bounded = omega arith;
  sized = omega arith;
  head_in = omega arith;
  tail_in = omega arith;
}

array_make-IsValid_example : IsValid (make 4096 1024)
array_make-IsValid_example = array_make-IsValid 4096 1024 (omega arith) (omega arith)

remove-drop_example :
    (a' : Array) × (remove held 1 ≡ ok a') × IsValid a' × (contents a' ≡ drop 1 (contents held))
remove-drop_example = remove-drop 1 held-IsValid (omega arith)

remove_from_back-take_example :
    (a' : Array) × (remove_from_back held 1 ≡ ok a')
    × IsValid a'
    × (contents a' ≡ take (count held - 1) (contents held))
remove_from_back-take_example = remove_from_back-take 1 held-IsValid (omega arith)

array_read-peek_example : read held 2 1 ≡ ok (take 2 (drop 1 (contents held)), held)
array_read-peek_example = array_read-peek 2 1 held-IsValid (omega arith)

array_read-front_example :
    (a' : Array) × (read held 2 npos ≡ ok (take 2 (contents held), a'))
    × IsValid a'
    × (contents a' ≡ drop 2 (contents held))
array_read-front_example = array_read-front 2 held-IsValid (omega arith)

array_expand-contents_example :
    (a' : Array) × (expand held ≡ ok a')
    × IsValid a'
    × (contents a' ≡ contents held)
    × (size a' ≡ min (size held * 4) held.block.max_size)
array_expand-contents_example = array_expand-contents held-IsValid (omega arith)

array_write-fits_example :
    (a' : Array) × (write 1 held (7 ∷ 8 ∷ 9 ∷ []) npos ≡ ok a')
    × IsValid a'
    × (contents a' ≡ contents held ++ 7 ∷ 8 ∷ 9 ∷ [])
array_write-fits_example =
    array_write-fits 0 (7 ∷ 8 ∷ 9 ∷ []) held-IsValid (omega arith) (omega arith)

-- Three bytes at the end of a block of four that may grow to five.
abbrev full : Array
full = record { block = record { mem = 1 ∷ 2 ∷ 3 ∷ 4 ∷ []; max_size = 5 }; head = 1; tail = 4 }

full-IsValid : IsValid full
full-IsValid = record {
  bounded = omega arith;
  sized = omega arith;
  head_in = omega arith;
  tail_in = omega arith;
}

array_write-past_end_example : write 1 full (7 ∷ 8 ∷ 9 ∷ []) npos ≡ fault
array_write-past_end_example =
    array_write-past_end 0 (7 ∷ 8 ∷ 9 ∷ []) full-IsValid (omega arith) (omega arith) (omega arith)
      (omega arith)
