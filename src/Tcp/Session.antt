-- ===== src/Tcp/Session.antt =====
-- A whole session of a TCP connection's sending side: what is queued and when the socket can be written
-- come in any order.
use simple_network.Base.{
  ◌≡◌, sym, ap, ap₂, subst, ◌∙◌, ◌<◌, false, List, [], ◌++◌, append-nil, append_assoc, length,
  Bytes, ok, ok-injective,
}
use simple_network.Buffer.Circle.{Circle}
use simple_network.Buffer.Circle.Valid.{IsValid, count, contents}
use simple_network.Connection.{World, Hooks, with_send}
use simple_network.Tcp.{Link, Reply, do_write, on_writable}
use simple_network.Tcp.Sending.{outgoing, AreFine, IsAwake, do_write-IsAwake, on_writable-stream}

-- The worlds that are reached from `start`, with the bytes that have been queued on the way. Between two
-- events the send buffer may get bytes behind those that it holds, as `send` of a packet does before it
-- calls `do_write`.
pub data Reach {E : Type 0} (h : Hooks (Link E)) (start : World (Link E))
    : Bytes → World (Link E) → Type 0 where
  here : Reach h start [] start
  queue :
      {bytes : Bytes} {w : World (Link E)} (c : Circle) (more : Bytes)
      → Reach h start bytes w
      → IsValid c
      → contents c ≡ contents w.out.send_buff ++ more
      → Reach h start (bytes ++ more) (do_write (with_send w c))
  writable :
      {bytes : Bytes} {w w' : World (Link E)} (rs : List Reply)
      → Reach h start bytes w
      → w.out.env.writes ≡ 1
      → AreFine rs
      → count w.out.send_buff < length rs
      → on_writable h false rs w ≡ ok w'
      → Reach h start bytes w'

-- What holds of a session at any time.
abbrev pub Holds : {E : Type 0} → World (Link E) → Bytes → World (Link E) → Type 0
Holds start bytes w = IsValid w.out.send_buff × IsAwake w × (outgoing w ≡ outgoing start ++ bytes)

-- In every world that is reached from a valid send buffer with its wait out as it should be, through any
-- packets that are queued and any handlers of the wait for writing whose answers are fine and more than
-- the bytes to send, in any order: the send buffer is valid, a wait for writing is out exactly when
-- SENDING is set and if there are bytes to send, and what has been sent and is held is what it was at the
-- start and then all that was queued, in order.
pub Reach-stream :
    {E : Type 0} {h : Hooks (Link E)} {start w : World (Link E)} {bytes : Bytes}
    → IsValid start.out.send_buff
    → IsAwake start
    → Reach h start bytes w
    → Holds start bytes w
Reach-stream {start = start} v a here = (v, a, sym (append-nil (outgoing start)))
Reach-stream {start = start} v a (queue {bytes} {w} c more r valid e) =
    let (_, (armed, _), same) = Reach-stream v a r in
    let (awake, buff, sent) = do_write-IsAwake (with_send w c) valid armed in
    (
      subst IsValid (sym buff) valid,
      awake,
      ap₂ (λ xs c. xs ++ contents c) sent buff
          ∙ ap (◌++◌ w.out.env.sent) e
          ∙ sym (append_assoc w.out.env.sent (contents w.out.send_buff) more)
          ∙ ap (λ xs. xs ++ more) same
          ∙ append_assoc (outgoing start) bytes more,
    )
Reach-stream {h = h} {start = start} v a (writable {bytes} {w} {w'} rs r one fine enough run) =
    let (valid, awake, same) = Reach-stream v a r in
    let (w'', run', valid', awake', same') = on_writable-stream h rs w valid one fine enough in
    subst (Holds start bytes) (ok-injective (sym run' ∙ run)) (valid', awake', same' ∙ same)
