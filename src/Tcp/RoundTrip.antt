-- ===== src/Tcp/RoundTrip.antt =====
-- From `send` on one side of a TCP connection to `on_recv` on the other.
use simple_network.Base.{
  ℕ, ◌+◌, ◌≤◌, ◌<◌, ◌≡◌, sym, ap, ap₂, ◌∙◌, inl, false, List, [], ◌∷◌, ◌++◌, append-nil, length,
  Bytes, ok, arith, length-append,
}
use simple_network.Buffer.Circle.{Circle, size}
use simple_network.Buffer.Circle.Valid.{IsValid, count, contents, length-contents}
use simple_network.Packet.Frames.{frame, concat, AllFull, length-frame}
use simple_network.Packet.Writing.{Roomy}
use simple_network.Packet.Closing.{Flushable}
use simple_network.Connection.{World, Outside, Hooks, with_send}
use simple_network.Connection.Reading.{stream, stream-end, length-zero, deliver_all, Delivers}
use simple_network.Connection.Sending.{send_values, send_values-frame}
use simple_network.Tcp.{Link, do_read, on_readable}
use simple_network.Tcp.Receiving.{called, once, on_readable-stream}

-- A send buffer that holds whole packets, starts its block and has room to grow gets one more by `send`,
-- when the packet does not fill its block exactly. When its bytes come to a peer whose receive buffer is
-- empty and has room for them behind its tail, the peer's `on_recv` gets the same packets, in order
-- and once, the last one with the values that were inserted, and nothing stays in its buffer.
pub send-receive :
    {E F : Type 0} (h : Hooks E) (g : Hooks (Link F))
    (deliver : Outside (Link F) → Bytes → Outside (Link F)) {k limit : ℕ} (fuel rounds : ℕ)
    (w : World E) (peer : World (Link F)) (bodies values : List Bytes)
    → Roomy k limit w.out.send_buff
    → AllFull values
    → limit + k < fuel
    → count w.out.send_buff + 4 + length (concat values) < limit
    → Flushable (contents w.out.send_buff) (concat values)
    → contents w.out.send_buff ≡ stream bodies
    → Delivers g deliver
    → 4 < fuel
    → length bodies + 1 < rounds
    → IsValid peer.recv_buff
    → count peer.recv_buff ≡ 0
    → count w.out.send_buff + 4 + length (concat values) < size peer.recv_buff
    → peer.recv_buff.tail + (count w.out.send_buff + 4 + length (concat values))
      ≤ size peer.recv_buff
    → (c : Circle) × (d : Circle) × (send_values h fuel w values ≡ h.do_write (with_send w c))
      × (on_readable g fuel rounds false (once (contents c)) peer
          ≡ ok (
              do_read (record {
                recv_buff = d;
                out = deliver_all deliver (called peer).out (bodies ++ (concat values ∷ []));
              })))
      × (count d ≡ 0)
send-receive h g deliver fuel rounds w peer bodies values r full f room fl held hd f' more v
      none_held fits inside =
    let (c, sent, r', framed) = send_values-frame h fuel w values r full f room fl in
    let total : length (contents c) ≡ count w.out.send_buff + 4 + length (concat values) = omega (
      arith,
      ap length framed,
      length-append (contents w.out.send_buff) (frame (concat values)),
      length-frame (concat values),
      length-contents w.out.send_buff,
    ) in
    let (d, received, v', left) =
      on_readable-stream g deliver fuel rounds peer (contents c) (bodies ++ (concat values ∷ [])) []
        hd f' (omega (arith, length-append bodies (concat values ∷ []))) v (omega (arith, total))
        (omega (arith, total)) (omega (arith, total))
        (ap₂ ◌++◌
            (length-zero (contents peer.recv_buff) (omega (arith, length-contents peer.recv_buff)))
            (framed
              ∙ ap (λ xs. xs ++ frame (concat values)) held
              ∙ sym (stream-end bodies (concat values)))
          ∙ sym (append-nil (stream (bodies ++ (concat values ∷ [])))))
        (inl (omega arith)) (omega arith) in
    (c, d, sent, received, sym (length-contents d) ∙ ap length left)
