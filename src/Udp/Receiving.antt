-- ===== src/Udp/Receiving.antt =====
-- The receiving side of udp/socket.h, with `on_read` of the connection behind it.
use simple_network.Base.{
  ℕ, ◌+◌, ◌-◌, ◌≤◌, ◌<◌, ◌≡◌, ◌∙◌, false, List, [], ◌++◌, length, Bytes, store-ok, zero, suc, sym,
  ap, length-splice, ok, arith,
}
use simple_network.Buffer.Circle.{Circle, size, written, reset}
use simple_network.Buffer.Circle.Valid.{IsValid, count, contents, length-contents}
use simple_network.Buffer.Circle.Filling.{put_behind, fill_lem, space-there}
use simple_network.Buffer.Circle.Moves.{reset-IsValid}
use simple_network.Connection.{World, Outside, Hooks}
use simple_network.Connection.Reading.{stream, deliver_all, IsPartial, Delivers, on_read-runs}
use simple_network.Udp.{Port, with_port, do_read, on_receive}

-- The world while the handler runs.
abbrev pub called : {E : Type 0} → World (Port E) → World (Port E)
called w = with_port w (record w.out.env { reads = w.out.env.reads - 1 })

-- The world when one more receive is out.
abbrev pub waiting : {E : Type 0} → World (Port E) → World (Port E)
waiting w = with_port w (record w.out.env { reads = w.out.env.reads + 1 })

-- An empty receive buffer of more than one byte is waited with at once.
do_read-empty :
    {E : Type 0} (h : Hooks (Port E)) (fuel : ℕ) (w : World (Port E))
    → 0 < fuel
    → IsValid w.recv_buff
    → count w.recv_buff ≡ 0
    → 1 < size w.recv_buff
    → do_read h fuel w ≡ ok (waiting w)
unfolding do_read
do_read-empty h zero w pos v none_held more = absurd (omega arith)
do_read-empty h (suc fuel) w pos v none_held more = rw (space-there fuel v (omega arith))

-- A datagram that the space behind the tail takes: `on_recv` gets every packet that the bytes held and
-- the datagram make up, in order and once, and the socket waits for the next datagram with an empty
-- receive buffer of more than one byte, so that a partial packet at the end of the datagram is lost.
pub on_receive-stream :
    {E : Type 0} (h : Hooks (Port E)) (deliver : Outside (Port E) → Bytes → Outside (Port E))
    (fuel rounds : ℕ) (w : World (Port E)) (datagram : Bytes) (bodies : List Bytes) (rest : Bytes)
    → Delivers h deliver
    → 4 < fuel
    → length bodies < rounds
    → IsValid w.recv_buff
    → count w.recv_buff + length datagram < size w.recv_buff
    → w.recv_buff.tail + length datagram ≤ size w.recv_buff
    → contents w.recv_buff ++ datagram ≡ stream bodies ++ rest
    → IsPartial rest
    → 1 < size w.recv_buff
    → (c : Circle) × (on_receive h fuel rounds false datagram w
        ≡ ok (waiting (record { recv_buff = c; out = deliver_all deliver (called w).out bodies })))
      × IsValid c
      × (contents c ≡ [])
unfolding on_receive reset written
on_receive-stream h deliver fuel rounds w datagram bodies rest hd f more v room inside e p large =
    let (valid, held) = fill_lem datagram v room inside in
    let (c, run, valid', left, same) =
      on_read-runs h deliver hd fuel f bodies rest rounds
        (record (called w) {
          recv_buff = written (put_behind w.recv_buff datagram) (length datagram);
        })
        valid (held ∙ e) p more in
    let size_same : size c ≡ size w.recv_buff =
      same ∙ length-splice w.recv_buff.block.mem w.recv_buff.tail datagram in
    let (empty, nothing) = reset-IsValid valid' in
    (
      reset c,
      rw (store-ok w.recv_buff.block.mem w.recv_buff.tail datagram inside, run)
          (do_read-empty h fuel
            (record { recv_buff = reset c; out = deliver_all deliver (called w).out bodies })
            (omega arith) empty (sym (length-contents (reset c)) ∙ ap length nothing)
            (omega (arith, size_same))),
      empty,
      nothing,
    )
