-- ===== src/Connection/Tests.antt =====
-- A connection whose application keeps a log of the packets, and the theorems at concrete inputs.
use simple_network.Base.{
  ◌+◌, ◌-◌, ◌^◌, ◌≡◌, refl, inl, true, List, [], ◌∷◌, ◌++◌, tabulate, length, replicate,
  append_assoc, to_bytes, length-to_bytes, drop-append, take-append, Bytes, Run, ok, out_of_fuel,
  ◌>>=◌, arith,
}
use simple_network.Buffer.Circle.{Circle, read, remove, reset, get_count}
use simple_network.Buffer.Circle.Index.{IsSize}
use simple_network.Buffer.Circle.Valid.{IsValid, byte, count-lt, contents}
use simple_network.Buffer.Circle.Reading.{read-peek}
use simple_network.Packet.{Reader, Writer, close_writer}
use simple_network.Packet.Frames.{frame}
use simple_network.Packet.Writing.{Roomy}
use simple_network.Packet.Reading.{frame-count, reader_of}
use simple_network.Connection.{connected, World, Outside, Hooks, with_send, on_read, send_reader}
use simple_network.Connection.Forwarding.{send_reader-frame}
use simple_network.Connection.Reading.{Delivers, on_read-stream}
use simple_network.Connection.Sending.{send_values, send_values-frame}
use simple_network.Connection.Defects.{wrapping_length, on_read-hangs, remove-reset}

thirty_two : IsSize 32
thirty_two = record { bits = 5; power = refl; small = omega arith }

-- `on_recv` puts the packet's bytes at the end of the log.
abbrev log_packet : World (List Bytes) → Reader → Run (World (List Bytes))
log_packet w r = do
  (bytes, c) ← read (2 ^ 30 + 1) w.recv_buff r.size r.tail true
  ok (record w { out = record w.out { env = w.out.env ++ bytes ∷ [] } })

abbrev logging : Hooks (List Bytes)
logging = record {
  on_connected = ok;
  on_disconnected = ok;
  on_recv = log_packet;
  open_socket = ok;
  close_socket = ok;
  do_write = ok;
}

abbrev log : Outside (List Bytes) → Bytes → Outside (List Bytes)
log out body = record out { env = out.env ++ body ∷ [] }

logging-Delivers : Delivers logging log
logging-Delivers w body rest v e = rw (
  read-peek (2 ^ 30 + 1) (length body) 4 v
      (omega (arith, frame-count body rest v e, count-lt v, v.sized.small))
      (omega (arith, frame-count body rest v e)),
  e,
  append_assoc (to_bytes (length body)) body rest,
  drop-append 4 (to_bytes (length body)) (body ++ rest) (length-to_bytes (length body)),
  take-append (length body) body rest refl,
)

-- Two packets, and the first byte of a third, round the end of the block.
abbrev incoming : Circle
incoming = record {
  block = record {
    mem = 8 ∷ 9 ∷ 0 ∷ 0 ∷ 0 ∷ 0 ∷ 7 ∷ replicate 21 0 ++ 2 ∷ 0 ∷ 0 ∷ 0 ∷ [];
    max_size = 4096;
  };
  head = 28;
  tail = 7;
}

abbrev outgoing : Circle
outgoing = record incoming { head = 0; tail = 2 }

incoming-IsValid : IsValid incoming
incoming-IsValid = record {
  sized = thirty_two;
  bounded = omega arith;
  head_in = omega arith;
  tail_in = omega arith;
}

outgoing-IsValid : IsValid outgoing
outgoing-IsValid = record {
  sized = thirty_two;
  bounded = omega arith;
  head_in = omega arith;
  tail_in = omega arith;
}

contents-incoming : contents incoming ≡ (frame (8 ∷ 9 ∷ []) ++ (frame [] ++ [])) ++ (7 ∷ [])
unfolding tabulate byte to_bytes
contents-incoming = refl

abbrev world : World (List Bytes)
world = record {
  recv_buff = incoming;
  out = record { state = connected; send_buff = outgoing; env = [] };
}

on_read-stream_example :
    (c : Circle) × (on_read logging 5 3 world
      ≡ ok (record {
        recv_buff = c;
        out = record { state = connected; send_buff = outgoing; env = (8 ∷ 9 ∷ []) ∷ [] ∷ [] };
      }))
    × IsValid c
    × (contents c ≡ 7 ∷ [])
on_read-stream_example =
    on_read-stream logging log logging-Delivers 5 (omega arith) ((8 ∷ 9 ∷ []) ∷ [] ∷ []) (7 ∷ []) 3
      world incoming-IsValid contents-incoming (inl (omega arith)) (omega arith)

outgoing-Roomy : Roomy 2 512 outgoing
outgoing-Roomy = record {
  valid = outgoing-IsValid;
  front = refl;
  large = omega arith;
  steps = 2;
  steps_le = omega arith;
  reach = refl;
  below = omega arith;
}

send_values-frame_example :
    (c : Circle) × (send_values logging 600 world ((1 ∷ 2 ∷ []) ∷ (3 ∷ 4 ∷ []) ∷ [])
      ≡ ok (with_send world c))
    × Roomy 2 512 c
    × (contents c ≡ (8 ∷ 9 ∷ []) ++ frame (1 ∷ 2 ∷ 3 ∷ 4 ∷ []))
unfolding tabulate byte
send_values-frame_example =
    send_values-frame logging 600 world ((1 ∷ 2 ∷ []) ∷ (3 ∷ 4 ∷ []) ∷ []) outgoing-Roomy
      (omega arith) (omega arith) (omega arith) (inl (omega arith))

-- The receive buffer of a peer that announces 2 ^ 32 - 4 bytes.
abbrev hostile : Circle
hostile = record {
  block = record { mem = 252 ∷ 255 ∷ 255 ∷ 255 ∷ replicate 28 0; max_size = 4096 };
  head = 0;
  tail = 4;
}

hostile-IsValid : IsValid hostile
hostile-IsValid = record {
  sized = thirty_two;
  bounded = omega arith;
  head_in = omega arith;
  tail_in = omega arith;
}

contents-hostile : contents hostile ≡ to_bytes wrapping_length ++ []
unfolding tabulate byte to_bytes
contents-hostile = refl

abbrev ignoring : Hooks (List Bytes)
ignoring = record logging { on_recv = λ w r. ok w }

on_read-hangs_example : on_read ignoring 5 1000 (record world { recv_buff = hostile }) ≡ out_of_fuel
on_read-hangs_example =
    on_read-hangs ignoring (λ out r. out) (λ w r. refl) 5 1000
      (record world { recv_buff = hostile }) [] (omega arith) hostile-IsValid contents-hostile

remove-reset_example :
    IsValid (remove (reset incoming) 6) × (get_count (remove (reset incoming) 6) ≡ 32 - 6)
remove-reset_example = remove-reset 6 incoming-IsValid (omega arith) (omega arith)

-- The first packet received goes out again, behind two bytes.
send_reader-frame_example :
    (c : Circle) × (writer : Writer) × (send_reader logging 600 world (reader_of 2) ≡ (do
      w' ← logging.do_write (with_send world c)
      c' ← close_writer 600 w'.out.send_buff writer
      ok (with_send w' c')))
    × Roomy 2 512 c
    × (contents c ≡ (8 ∷ 9 ∷ []) ++ frame (8 ∷ 9 ∷ []))
    × (close_writer 600 c writer ≡ ok c)
unfolding tabulate byte to_bytes
send_reader-frame_example =
    send_reader-frame logging 600 world (8 ∷ 9 ∷ []) (frame [] ++ (7 ∷ [])) incoming-IsValid
      contents-incoming (omega arith) outgoing-Roomy (omega arith) (omega arith) (inl (omega arith))
