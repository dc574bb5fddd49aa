-- ===== src/Connection/First.antt =====
-- A round of the loop of `connection::on_read`: a packet at the start of the receive buffer.
use simple_network.Base.{
  ℕ, suc, ◌+◌, ◌^◌, ◌<◌, ◌≤◌, ◌≡◌, sym, ap, ◌∙◌, [], ◌++◌, append_assoc, ◌==◌, if◌then◌else◌,
  length, take, drop, add32, word_size, to_bytes, of_bytes, length-to_bytes, of_bytes-to_bytes,
  take-append, drop-append, Bytes, ok, arith, le→ltb, eq→==,
}
use simple_network.Buffer.Circle.{Circle, get_count, remove}
use simple_network.Buffer.Circle.Valid.{
  IsValid, count, contents, count-lt, get_count-eq, length-contents,
}
use simple_network.Buffer.Circle.Moves.{remove_lem}
use simple_network.Buffer.Circle.Reading.{read-peek}
use simple_network.Packet.Frames.{frame, length-frame}
use simple_network.Packet.Reading.{reader_of, open_reader-frame, frame-count}
use simple_network.Connection.{World, Outside, Hooks, on_read}

-- A packet at the start of a buffer.
module _ {c : Circle} (body rest : Bytes) (v : IsValid c)
    (e : contents c ≡ frame body ++ rest) where
  counted : count c ≡ length body + 4 + length rest
  counted = frame-count body rest v e

  small : length body + 4 < 2 ^ 30
  small = omega (arith, counted, count-lt v, v.sized.small)

  header : take 4 (contents c) ≡ to_bytes (length body)
  header =
      ap (take 4) (e ∙ append_assoc (to_bytes (length body)) body rest)
      ∙ take-append 4 (to_bytes (length body)) (body ++ rest) (length-to_bytes (length body))

  whole : add32 (of_bytes (to_bytes (length body))) word_size ≡ length body + 4
  whole = omega (arith, of_bytes-to_bytes (length body) (omega (arith, small)), small)

  removed :
      IsValid (remove c (length body + 4))
      × (contents (remove c (length body + 4)) ≡ drop (length body + 4) (contents c))
  removed = remove_lem (length body + 4) v (omega (arith, counted))

  -- What the header announces is there.
  pub announced :
      (4 ≤ length (contents c))
      × (add32 (of_bytes (take 4 (contents c))) word_size ≤ length (contents c))
  announced = (
    omega (arith, counted, length-contents c),
    omega (
      arith,
      ap (λ bytes. add32 (of_bytes bytes) word_size) header ∙ whole,
      counted,
      length-contents c,
    ),
  )

-- A packet at the start of the receive buffer.
module _ {E : Type 0} (h : Hooks E) (fuel : ℕ) (enough : 4 < fuel) (w : World E) (body rest : Bytes)
    (v : IsValid w.recv_buff) (e : contents w.recv_buff ≡ frame body ++ rest) where
  -- It is handed to `on_recv` and removed.
  pub on_read-first :
      (rounds : ℕ) (out : Outside E)
      → h.on_recv w (reader_of (length body)) ≡ ok (record w { out = out })
      → let c = remove w.recv_buff (length body + 4) in
        (on_read h fuel (suc rounds) w ≡ (
          if get_count c == 0
          then ok (record { recv_buff = c; out = out })
          else on_read h fuel rounds (record { recv_buff = c; out = out })))
        × IsValid c
        × (contents c ≡ rest)
  unfolding on_read
  on_read-first rounds out got = (
    rw (
      get_count-eq v,
      le→ltb (count w.recv_buff) 4 (omega (arith, counted body rest v e)),
      read-peek fuel 4 0 v enough (omega (arith, counted body rest v e)),
      header body rest v e,
      whole body rest v e,
      get_count-eq v,
      le→ltb (count w.recv_buff) (length body + 4) (omega (arith, counted body rest v e)),
      open_reader-frame body rest v e fuel enough,
      got,
    ),
    (removed body rest v e).0,
    (removed body rest v e).1
        ∙ ap (drop (length body + 4)) e
        ∙ drop-append (length body + 4) (frame body) rest (length-frame body),
  )

  -- One that is all there is leaves the buffer empty.
  pub on_read-only :
      (rounds : ℕ) (out : Outside E)
      → h.on_recv w (reader_of (length body)) ≡ ok (record w { out = out })
      → rest ≡ []
      → let c = remove w.recv_buff (length body + 4) in
        (on_read h fuel (suc rounds) w ≡ ok (record { recv_buff = c; out = out }))
        × IsValid c
        × (contents c ≡ [])
  on_read-only rounds out got none_behind =
      let (step, valid, left) = on_read-first rounds out got in
      let none_left = left ∙ none_behind in
      (
        step ∙ rw (eq→== _ _ (get_count-eq valid ∙ sym (length-contents _) ∙ ap length none_left)),
        valid,
        none_left,
      )
