-- ===== src/Tcp/Receiving.antt =====
-- The receiving side of tcp/socket.h, with `on_read` of the connection behind it.
use simple_network.Base.{
  ℕ, zero, suc, ◌+◌, ◌-◌, ◌%◌, ◌^◌, ◌≤◌, ◌<◌, min, ◌≡◌, ◌∙◌, false, List, [], ◌∷◌, ◌++◌, length,
  Bytes, ok, arith, lt→ltb, ne→==, take-all, store-ok, sym, ap, length-splice,
}
use simple_network.Buffer.Circle.{Circle, size, written}
use simple_network.Buffer.Circle.Valid.{IsValid, count, contents, length-contents}
use simple_network.Buffer.Circle.Filling.{put_behind, fill_lem, fill-none, space-there}
use simple_network.Connection.{World, Outside, Hooks}
use simple_network.Connection.Reading.{stream, deliver_all, IsPartial, Delivers, on_read-runs}
use simple_network.Tcp.{
  Link, Arrival, came, nothing_yet, with_link, do_read, receive_loop, on_readable,
}

-- The world while the handler of the wait runs.
abbrev pub called : {E : Type 0} → World (Link E) → World (Link E)
called w = with_link w (record w.out.env { reads = w.out.env.reads - 1 })

-- The space behind the tail.
abbrev pub asked : Circle → ℕ
asked c = min (size c - 1 - count c) (size c - c.tail)

space-small : {c : Circle} → IsValid c → asked c % 2 ^ 32 ≡ asked c
space-small v = omega (arith, v.sized.small)

-- The answers when these bytes come at once, and then nothing more.
abbrev pub once : Bytes → List Arrival
once [] = nothing_yet ∷ []
once (byte ∷ bytes) = came byte bytes ∷ nothing_yet ∷ []

pub on_readable-stream :
    {E : Type 0} (h : Hooks (Link E)) (deliver : Outside (Link E) → Bytes → Outside (Link E))
    (fuel rounds : ℕ) (w : World (Link E)) (chunk : Bytes) (bodies : List Bytes) (rest : Bytes)
    → Delivers h deliver
    → 4 < fuel
    → length bodies < rounds
    → IsValid w.recv_buff
    → 0 < length chunk
    → count w.recv_buff + length chunk < size w.recv_buff
    → w.recv_buff.tail + length chunk ≤ size w.recv_buff
    → contents w.recv_buff ++ chunk ≡ stream bodies ++ rest
    → IsPartial rest
    → length rest + 1 < size w.recv_buff
    → (c : Circle) × (on_readable h fuel rounds false (once chunk) w
        ≡ ok (do_read (record { recv_buff = c; out = deliver_all deliver (called w).out bodies })))
      × IsValid c
      × (contents c ≡ rest)
unfolding on_readable receive_loop written
on_readable-stream h deliver zero rounds w chunk bodies rest hd f more v pos room inside e p short =
    absurd (omega arith)
on_readable-stream h deliver (suc fuel) rounds w [] bodies rest hd f more v pos room inside e p
      short =
    absurd (omega arith)
on_readable-stream h deliver (suc fuel) rounds w (byte ∷ bytes) bodies rest hd f more v pos room
      inside e p short =
    let chunk : Bytes = byte ∷ bytes in
    let (valid, held) = fill_lem chunk v room inside in
    let (c, run, valid', left, same) =
      on_read-runs h deliver hd (suc fuel) f bodies rest rounds
        (record (called w) { recv_buff = written (put_behind w.recv_buff chunk) (length chunk) })
        valid (held ∙ e) p more in
    let size_same : size c ≡ size w.recv_buff =
      same ∙ length-splice w.recv_buff.block.mem w.recv_buff.tail chunk in
    let room_left : count c + 1 < size c =
      omega (arith, size_same, sym (length-contents c) ∙ ap length left) in
    let (valid'', left') = fill-none valid' in
    (
      put_behind c [],
      rw (
        space-there fuel v (omega arith),
        space-small v,
        ne→== (asked w.recv_buff) 0 (omega (arith, v.tail_in)),
        take-all (asked w.recv_buff) chunk (omega arith),
        store-ok w.recv_buff.block.mem w.recv_buff.tail chunk inside,
        lt→ltb 0 (length chunk) pos,
        run,
        space-there fuel valid' room_left,
        space-small valid',
        ne→== (asked c) 0 (omega (arith, valid'.tail_in)),
        store-ok c.block.mem c.tail [] (omega (arith, valid'.tail_in)),
      ),
      valid'',
      left' ∙ left,
    )
