-- ===== src/Kcp/Updating.antt =====
-- `update` of kcp/socket.h, with `on_read` of the connection behind it.
use simple_network.Base.{
  ℕ, zero, suc, ◌+◌, ◌-◌, ◌%◌, ◌^◌, ◌≤◌, ◌<◌, min, ◌≡◌, sym, ap, ◌∙◌, Bool, false, some, List, [],
  ◌∷◌, ◌++◌, append-nil, append_assoc, length, Bytes, ok, ◌>>=◌, arith, lt→ltb, le→ltb, ltb,
  lt-or-le, inl, inr, ◌⊎◌, if◌then◌else◌, store-ok,
}
use simple_network.Buffer.Circle.{Circle, size, written}
use simple_network.Buffer.Circle.Valid.{IsValid, count, contents}
use simple_network.Buffer.Circle.Filling.{put_behind, fill_lem, fill-none, space-there}
use simple_network.Connection.{World, Outside, Hooks, on_read}
use simple_network.Connection.Reading.{
  stream, deliver_all, IsPartial, IsPartial-none, length-zero, Delivers, on_read-stream,
}
use simple_network.Kcp.{Ikcp}
use simple_network.Kcp.Socket.{
  Line, with_line, with_kcp, output, output_all, receive, update_kcp, update,
}

-- The world when kcp has handed over its datagrams, and what it has received.
abbrev pub talked : {K E : Type 0} → World (Line K E) → K → List Bytes → World (Line K E)
talked w k ds =
    with_line w (record w.out.env { kcp = some k; datagrams = w.out.env.datagrams ++ ds })

-- Datagrams that `send` takes go out in order.
pub output_all-sent :
    {K E : Type 0} (i : Ikcp K) (h : Hooks (Line K E)) (error : Bytes → Bool) (ds : List Bytes)
    (w : World (Line K E))
    → ((bytes : Bytes) → error bytes ≡ false)
    → output_all i h error ds w
      ≡ ok (with_line w (record w.out.env { datagrams = w.out.env.datagrams ++ ds }))
unfolding output_all output
output_all-sent i h error [] w fine =
    ap (λ ds. ok (with_line w (record w.out.env { datagrams = ds })))
      (sym (append-nil w.out.env.datagrams))
output_all-sent i h error (bytes ∷ ds) w fine = rw (fine bytes) (
    output_all-sent i h error ds
      (with_line w (record w.out.env { datagrams = w.out.env.datagrams ++ (bytes ∷ []) })) fine
    ∙ ap (λ xs. ok (with_line w (record w.out.env { datagrams = xs })))
        (append_assoc w.out.env.datagrams (bytes ∷ []) ds))

-- How many bytes `update` asks kcp for.
abbrev pub asked : Circle → ℕ
asked c = min (size c - 1 - count c) (size c - c.tail)

-- The world when the bytes that kcp has received stand in the receive buffer.
abbrev pub filled : {K E : Type 0} → World (Line K E) → K → List Bytes → Bytes → World (Line K E)
filled w k ds chunk = record (talked w k ds) {
  recv_buff = written (put_behind w.recv_buff chunk) (length chunk);
}

-- An update of a socket with a kcp object, when `send` takes all its datagrams.
module _ {K E : Type 0} (i : Ikcp K) (h : Hooks (Line K E)) (fuel rounds current : ℕ)
    (error : Bytes → Bool) (w : World (Line K E)) (k k₁ k₂ : K) (ds : List Bytes) (chunk : Bytes)
    (v : IsValid w.recv_buff) (there : w.out.env.kcp ≡ some k)
    (sends : i.update k current ≡ (k₁, ds)) (fine : (bytes : Bytes) → error bytes ≡ false)
    (gives : i.recv k₁ (asked w.recv_buff) ≡ (chunk, k₂))
    (room : count w.recv_buff + 1 < size w.recv_buff) where
  small : asked w.recv_buff % 2 ^ 32 ≡ asked w.recv_buff
  small = omega (arith, v.sized.small)

  -- The bytes go behind the tail, and to `on_read` if there are any.
  update-receive :
      length chunk ≤ asked w.recv_buff
      → update i h (suc fuel) rounds error current w ≡ (
          if ltb 0 (length chunk)
          then on_read h (suc fuel) rounds (filled w k₂ ds chunk)
          else ok (record (talked w k₂ ds) { recv_buff = put_behind w.recv_buff chunk }))
  unfolding update update_kcp receive
  update-receive fits =
      ap (λ o. update_kcp i h (suc fuel) rounds error current o w) there
      ∙ ap
          (λ (r : K × List Bytes). output_all i h error r.1 (with_kcp w (some r.0)) >>= λ w'.
            receive i h (suc fuel) rounds w'.out.env.kcp w')
          sends
      ∙ rw (output_all-sent i h error ds (with_kcp w (some k₁)) fine) (
          rw (
            space-there fuel v room,
            small,
            gives,
            store-ok w.recv_buff.block.mem w.recv_buff.tail chunk (omega (arith, v.tail_in)),
          ))

  pub update-on_read :
      0 < length chunk
      → length chunk ≤ asked w.recv_buff
      → (update i h (suc fuel) rounds error current w
          ≡ on_read h (suc fuel) rounds (filled w k₂ ds chunk))
        × IsValid (filled w k₂ ds chunk).recv_buff
        × (contents (filled w k₂ ds chunk).recv_buff ≡ contents w.recv_buff ++ chunk)
  update-on_read pos fits =
      let (valid, held) = fill_lem chunk v (omega arith) (omega arith) in
      (update-receive fits ∙ rw (lt→ltb 0 (length chunk) pos), valid, held)

  -- When there are none, the buffer holds what it held.
  pub update-quiet :
      chunk ≡ []
      → (c : Circle) × (update i h (suc fuel) rounds error current w
          ≡ ok (record (talked w k₂ ds) { recv_buff = c }))
        × IsValid c
        × (contents c ≡ contents w.recv_buff)
  update-quiet nothing =
      let (valid, held) = fill-none v in
      let none_there : length chunk ≡ 0 = ap length nothing in
      (
        put_behind w.recv_buff [],
        update-receive (omega (arith, none_there))
            ∙ rw (le→ltb 0 (length chunk) (omega (arith, none_there))) (
                ap (λ bs. ok (record (talked w k₂ ds) { recv_buff = put_behind w.recv_buff bs }))
                  nothing),
        valid,
        held,
      )

-- `update` of a socket with a kcp object, when `send` takes all datagrams: they go out in order, and
-- `on_recv` gets every packet that the bytes held and the bytes that kcp has received make up, in order
-- and once, when those are at most what the space behind the tail takes, and there are some or the buffer
-- held no whole packet; the partial packet behind them stays in the buffer. Fuel above 4 and more rounds
-- than packets are enough.
pub update-stream :
    {K E : Type 0} (i : Ikcp K) (h : Hooks (Line K E))
    (deliver : Outside (Line K E) → Bytes → Outside (Line K E)) (fuel rounds current : ℕ)
    (error : Bytes → Bool) (w : World (Line K E)) (k k₁ k₂ : K) (ds : List Bytes) (chunk : Bytes)
    (bodies : List Bytes) (rest : Bytes)
    → Delivers h deliver
    → 4 < fuel
    → length bodies < rounds
    → IsValid w.recv_buff
    → w.out.env.kcp ≡ some k
    → i.update k current ≡ (k₁, ds)
    → ((bytes : Bytes) → error bytes ≡ false)
    → i.recv k₁ (asked w.recv_buff) ≡ (chunk, k₂)
    → (0 < length chunk) ⊎ IsPartial (contents w.recv_buff)
    → length chunk ≤ asked w.recv_buff
    → count w.recv_buff + 1 < size w.recv_buff
    → contents w.recv_buff ++ chunk ≡ stream bodies ++ rest
    → IsPartial rest
    → (c : Circle) × (update i h fuel rounds error current w
        ≡ ok (record { recv_buff = c; out = deliver_all deliver (talked w k₂ ds).out bodies }))
      × IsValid c
      × (contents c ≡ rest)
update-stream i h deliver zero rounds current error w k k₁ k₂ ds chunk bodies rest hd f more v there
      sends fine gives pos fits room e p =
    absurd (omega arith)
update-stream i h deliver (suc fuel) rounds current error w k k₁ k₂ ds chunk bodies rest hd f more v
      there sends fine gives some_new fits room e p =
    elim (lt-or-le 0 (length chunk)) [
      | inl pos ↦
          let (run, valid, held) =
            update-on_read i h fuel rounds current error w k k₁ k₂ ds chunk v there sends fine gives
              room pos fits in
          let (c, read, valid', left) =
            on_read-stream h deliver hd (suc fuel) f bodies rest rounds (filled w k₂ ds chunk) valid
              (held ∙ e) p more in
          (c, run ∙ read, valid', left)
      | inr none_new ↦
          let nothing : chunk ≡ [] = length-zero chunk (omega arith) in
          let (c, run, valid, held) =
            update-quiet i h fuel rounds current error w k k₁ k₂ ds chunk v there sends fine gives
              room nothing in
          let same : contents w.recv_buff ≡ stream bodies ++ rest =
            sym (append-nil (contents w.recv_buff))
            ∙ ap (λ bs. contents w.recv_buff ++ bs) (sym nothing)
            ∙ e in
          let no_bodies = IsPartial-none bodies rest v same (partial none_new some_new) in
          (
            c,
            run
                ∙ ap
                    (λ bs.
                      ok (record {
                        recv_buff = c;
                        out = deliver_all deliver (talked w k₂ ds).out bs;
                      }))
                    (sym no_bodies),
            valid,
            held ∙ same ∙ ap (λ bs. stream bs ++ rest) no_bodies,
          )
    ]
  where
    partial :
        length chunk ≤ 0
        → (0 < length chunk) ⊎ IsPartial (contents w.recv_buff)
        → IsPartial (contents w.recv_buff)
    partial none_new (inl pos) = absurd (omega arith)
    partial none_new (inr p) = p
