-- ===== src/Packet/Tests.antt =====
-- Packets in small buffers: a run, and the theorems at concrete inputs.
use simple_network.Base.{
  ◌+◌, ◌≡◌, refl, inl, some, [], ◌∷◌, ◌++◌, tabulate, replicate, to_bytes, ok, err,
  read_invalid_offset, arith,
}
use simple_network.Buffer.Circle.{Circle}
use simple_network.Buffer.Circle.Index.{IsSize}
use simple_network.Buffer.Circle.Valid.{IsValid, byte, contents}
use simple_network.Packet.{
  Writer, open_reader, open_inner_reader, extract, open_writer, insert_all, flush, grow_parent,
  close_writer,
}
use simple_network.Packet.Frames.{frame}
use simple_network.Packet.Writing.{Roomy, Open, open_writer-Open, insert_all-Open}
use simple_network.Packet.Closing.{flush-frame, close-unflushed, close-flushed}
use simple_network.Packet.Nesting.{nest, nest-Open, open_inner_reader-frame}
use simple_network.Packet.Reading.{reader_of, open_reader-frame, extract-frame, extract-end}

thirty_two : IsSize 32
thirty_two = record { bits = 5; power = refl; small = omega arith }

-- Two bytes, then an open packet that holds three.
abbrev half_done : Circle
half_done = record {
  block = record {
    mem = 1 ∷ 2 ∷ 255 ∷ 255 ∷ 255 ∷ 255 ∷ 5 ∷ 6 ∷ 7 ∷ replicate 23 0;
    max_size = 4096;
  };
  head = 0;
  tail = 9;
}

abbrev half_writer : Writer
half_writer = record { head = 2; size = 3 }

half_done-IsValid : IsValid half_done
half_done-IsValid = record {
  sized = thirty_two;
  bounded = omega arith;
  head_in = omega arith;
  tail_in = omega arith;
}

half_done-Roomy : Roomy 2 512 half_done
half_done-Roomy = record {
  valid = half_done-IsValid;
  front = refl;
  large = omega arith;
  steps = 2;
  steps_le = omega arith;
  reach = refl;
  below = omega arith;
}

half_done-Open : Open 2 512 (1 ∷ 2 ∷ []) (5 ∷ 6 ∷ 7 ∷ []) half_writer half_done
unfolding tabulate byte to_bytes
half_done-Open = record { roomy = half_done-Roomy; bytes = refl; at = refl; counted = refl }

-- Two packets of which the second is not there in full.
abbrev received : Circle
received = record {
  block = record { mem = 2 ∷ 0 ∷ 0 ∷ 0 ∷ 8 ∷ 9 ∷ 4 ∷ 0 ∷ replicate 24 0; max_size = 4096 };
  head = 0;
  tail = 8;
}

received-IsValid : IsValid received
received-IsValid = record {
  sized = thirty_two;
  bounded = omega arith;
  head_in = omega arith;
  tail_in = omega arith;
}

contents-received : contents received ≡ frame (8 ∷ 9 ∷ []) ++ (4 ∷ 0 ∷ [])
unfolding tabulate byte to_bytes
contents-received = refl

-- The first two bytes and one more packet.
abbrev flushed : Circle
flushed = record received { tail = 6 }

contents-flushed : contents flushed ≡ [] ++ frame (8 ∷ 9 ∷ [])
unfolding tabulate byte to_bytes
contents-flushed = refl

flushed-IsValid : IsValid flushed
flushed-IsValid = record {
  sized = thirty_two;
  bounded = omega arith;
  head_in = omega arith;
  tail_in = omega arith;
}

open_writer-Open_example :
    (w : Writer) × (c' : Circle) × (open_writer 600 half_done ≡ ok (w, c'))
    × Open 2 512 (contents half_done) [] w c'
open_writer-Open_example = open_writer-Open 600 half_done-Roomy (omega arith) (omega arith)

insert_all-Open_example :
    (w' : Writer) × (c' : Circle) × (insert_all 600 half_done half_writer
        ((3 ∷ []) ∷ (4 ∷ 4 ∷ []) ∷ [])
      ≡ ok (w', c'))
    × Open 2 512 (1 ∷ 2 ∷ []) (5 ∷ 6 ∷ 7 ∷ 3 ∷ 4 ∷ 4 ∷ []) w' c'
insert_all-Open_example =
    insert_all-Open 600 (1 ∷ 2 ∷ []) (5 ∷ 6 ∷ 7 ∷ []) half_writer half_done
      ((3 ∷ []) ∷ (4 ∷ 4 ∷ []) ∷ []) half_done-Open (omega arith) (omega arith) (omega arith)

flush-frame_example :
    (c' : Circle) × (flush 5 half_done half_writer (some half_writer)
      ≡ ok (grow_parent 3 (some half_writer), c'))
    × Roomy 2 512 c'
    × (contents c' ≡ (1 ∷ 2 ∷ []) ++ frame (5 ∷ 6 ∷ 7 ∷ []))
flush-frame_example =
    flush-frame half_done-Open 5 (some half_writer) (omega arith) (inl (omega arith))

close-unflushed_example :
    (c' : Circle) × (close_writer 5 half_done half_writer ≡ ok c')
    × IsValid c'
    × (contents c' ≡ 1 ∷ 2 ∷ [])
close-unflushed_example = close-unflushed half_done-Open 5 (omega arith)

close-flushed_example : close_writer 5 flushed (record { head = 0; size = 2 }) ≡ ok flushed
close-flushed_example =
    close-flushed [] (8 ∷ 9 ∷ []) (record { head = 0; size = 2 }) 5 flushed-IsValid contents-flushed
      refl (omega arith) (omega arith)

open_reader-frame_example : open_reader 5 received ≡ ok (reader_of 2, received)
open_reader-frame_example =
    open_reader-frame (8 ∷ 9 ∷ []) (4 ∷ 0 ∷ []) received-IsValid contents-received 5 (omega arith)

extract-frame_example : extract 5 received (reader_of 2) 2 ≡ ok (8 ∷ 9 ∷ [], reader_of 2, received)
extract-frame_example =
    extract-frame (8 ∷ 9 ∷ []) (4 ∷ 0 ∷ []) received-IsValid contents-received 5 2 (omega arith)
      (omega arith)

extract-end_example : extract 5 received (reader_of 2) 5 ≡ err read_invalid_offset
extract-end_example =
    extract-end (8 ∷ 9 ∷ []) (4 ∷ 0 ∷ []) received-IsValid contents-received 4 5 (omega arith)
      (omega arith)

nest-Open_example :
    (w' : Writer) × (c' : Circle) × (nest 600 half_done half_writer (9 ∷ []) ≡ ok (some w', c'))
    × Open 2 512 (1 ∷ 2 ∷ []) ((5 ∷ 6 ∷ 7 ∷ []) ++ frame (9 ∷ [])) w' c'
nest-Open_example = nest-Open 600 (9 ∷ []) half_done-Open (omega arith) (omega arith) (omega arith)

-- A packet that holds another one.
abbrev nested : Circle
nested = record {
  block = record { mem = 6 ∷ 0 ∷ 0 ∷ 0 ∷ 2 ∷ 0 ∷ 0 ∷ 0 ∷ 8 ∷ 9 ∷ replicate 22 0; max_size = 4096 };
  head = 0;
  tail = 10;
}

nested-IsValid : IsValid nested
nested-IsValid = record {
  sized = thirty_two;
  bounded = omega arith;
  head_in = omega arith;
  tail_in = omega arith;
}

contents-nested : contents nested ≡ (6 ∷ 0 ∷ 0 ∷ 0 ∷ []) ++ (frame (8 ∷ 9 ∷ []) ++ [])
unfolding tabulate byte to_bytes
contents-nested = refl

open_inner_reader-frame_example :
    open_inner_reader 5 nested (reader_of 6)
    ≡ ok (
      record { head = 4; tail = 4 + 4; size = 2 },
      record (reader_of 6) { tail = 4 + (2 + 4) },
      nested,
    )
open_inner_reader-frame_example =
    open_inner_reader-frame 5 (reader_of 6) (6 ∷ 0 ∷ 0 ∷ 0 ∷ []) (8 ∷ 9 ∷ []) [] nested-IsValid
      contents-nested refl (omega arith)
