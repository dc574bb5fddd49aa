-- ===== src/Buffer/Bip/Tests.antt =====
-- A bip buffer of eight bytes, by evaluation.
use simple_network.Base.{
  some, none, take, err, write_no_space, arith, ◌≡◌, refl, [], ◌∷◌, Bytes, Run, ok, ◌>>=◌, npos,
  store, splice, tabulate, load, slice,
}
use simple_network.Buffer.Bip.{
  Bip, make, write, write_loop, write_step, put_a, take_out, promote, remove, read,
}
use simple_network.Buffer.Bip.{get_continguious_space}
use simple_network.Buffer.Bip.Laws.{IsValid, b_bytes}
use simple_network.Buffer.Bip.Defects.{
  bip_read-past_a, get_continguious_space-room_before, bip_write-over_both,
}
use simple_network.Buffer.Data

-- The third write goes before region A, as region B, and a read takes from both.
abbrev both : Run (Bytes × Bip)
both = do
  b₁ ← write 9 (make 64 8) (1 ∷ 2 ∷ 3 ∷ 4 ∷ 5 ∷ 6 ∷ []) npos
  b₂ ← remove b₁ 4
  b₃ ← write 9 b₂ (7 ∷ 8 ∷ 9 ∷ []) npos
  read b₃ 4 npos

abbrev bytes_of : Run (Bytes × Bip) → Run Bytes
bytes_of r = do (bytes, b) ← r; ok bytes

both_runs : bytes_of both ≡ ok (5 ∷ 6 ∷ 7 ∷ 8 ∷ [])
unfolding write remove read write_loop write_step make put_a Data.make store take_out promote splice
    tabulate load slice
both_runs = refl

-- Four bytes in A, at the end of a block that may not grow, and three in B.
abbrev split : Bip
split = record {
  block = record { mem = 5 ∷ 6 ∷ 7 ∷ 0 ∷ 1 ∷ 2 ∷ 3 ∷ 4 ∷ []; max_size = 8 };
  region_a_start = 4;
  region_a_count = 4;
  region_b_start = some 0;
  region_b_count = 3;
}

split-IsValid : IsValid split
split-IsValid = record {
  bounded = omega arith;
  sized = omega arith;
  a_in = omega arith;
  b_in = omega arith;
}

-- The same with B empty.
abbrev behind : Bip
behind = record split { region_b_start = none; region_b_count = 0 }

behind-IsValid : IsValid behind
behind-IsValid = record {
  bounded = omega arith;
  sized = omega arith;
  a_in = omega arith;
  b_in = refl;
}

bip_read-past_a_example : read split 2 5 ≡ ok (take 2 (b_bytes split), split)
bip_read-past_a_example = bip_read-past_a 2 5 split-IsValid (omega arith) (omega arith)

get_continguious_space-room_before_example : get_continguious_space 1 behind ≡ err write_no_space
get_continguious_space-room_before_example =
    get_continguious_space-room_before 0 behind-IsValid refl refl (omega arith) refl

bip_write-over_both_example : write 1 split (9 ∷ 9 ∷ 9 ∷ []) 2 ≡ err write_no_space
bip_write-over_both_example =
    bip_write-over_both 0 (9 ∷ 9 ∷ 9 ∷ []) 2 0 split-IsValid refl refl (omega arith) (omega arith)
      (omega arith) (omega arith)
