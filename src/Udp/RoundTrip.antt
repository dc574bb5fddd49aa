-- ===== src/Udp/RoundTrip.antt =====
-- From `send` on one side of a UDP connection to `on_recv` on the other.
use simple_network.Base.{
  ℕ, ◌+◌, ◌≤◌, ◌<◌, ◌≡◌, sym, ap, ap₂, ◌∙◌, inl, false, List, [], ◌∷◌, ◌++◌, append-nil, length,
  Bytes, ok, arith, length-append,
}
use simple_network.Buffer.Circle.{Circle, size, reset}
use simple_network.Buffer.Circle.Valid.{IsValid, count, contents, length-contents}
use simple_network.Packet.Frames.{frame, concat, AllFull, length-frame}
use simple_network.Packet.Writing.{Roomy}
use simple_network.Packet.Closing.{Flushable}
use simple_network.Connection.{World, Outside, Hooks, with_send}
use simple_network.Connection.Reading.{stream, stream-end, deliver_all, Delivers, length-zero}
use simple_network.Connection.Sending.{send_values, send_values-frame}
use simple_network.Udp.{Port, datagram_size, with_port, do_write, on_receive}
use simple_network.Udp.Sending.{do_write-datagram}
use simple_network.Udp.Receiving.{called, waiting, on_receive-stream}

-- A send buffer that holds whole packets, starts its block and has room to grow gets one more by
-- `send`, which sends them all as one datagram and empties the buffer, when they fit a datagram and
-- the packet does not fill its block exactly. When the datagram comes to a peer whose receive buffer
-- is empty and has room for it behind its tail, the peer's `on_recv` gets the same packets, in order
-- and once, and the peer waits for the next datagram with an empty buffer.
pub datagram-receive :
    {E F : Type 0} (h : Hooks (Port E)) (g : Hooks (Port F))
    (deliver : Outside (Port F) → Bytes → Outside (Port F)) {k limit : ℕ} (fuel rounds : ℕ)
    (w : World (Port E)) (peer : World (Port F)) (bodies values : List Bytes)
    → ((v : World (Port E)) → h.do_write v ≡ do_write h false v)
    → Roomy k limit w.out.send_buff
    → AllFull values
    → limit + k < fuel
    → count w.out.send_buff + 4 + length (concat values) < limit
    → count w.out.send_buff + 4 + length (concat values) ≤ datagram_size
    → Flushable (contents w.out.send_buff) (concat values)
    → contents w.out.send_buff ≡ stream bodies
    → Delivers g deliver
    → 4 < fuel
    → length bodies + 1 < rounds
    → IsValid peer.recv_buff
    → count peer.recv_buff ≡ 0
    → count w.out.send_buff + 4 + length (concat values) < size peer.recv_buff
    → peer.recv_buff.tail + (count w.out.send_buff + 4 + length (concat values))
      ≤ size peer.recv_buff
    → (c : Circle) × (d : Circle) × (datagram : Bytes) × (send_values h fuel w values
        ≡ ok (
            with_send
              (with_port w
                (record w.out.env { datagrams = w.out.env.datagrams ++ (datagram ∷ []) }))
              (reset c)))
      × (datagram ≡ stream (bodies ++ (concat values ∷ [])))
      × (on_receive g fuel rounds false datagram peer
          ≡ ok (
              waiting (record {
                recv_buff = d;
                out = deliver_all deliver (called peer).out (bodies ++ (concat values ∷ []));
              })))
      × (contents d ≡ [])
datagram-receive h g deliver fuel rounds w peer bodies values writes r full f room small fl held hd
      f' more v none_held fits inside =
    let (c, sent, r', framed) = send_values-frame h fuel w values r full f room fl in
    let total : length (contents c) ≡ count w.out.send_buff + 4 + length (concat values) = omega (
      arith,
      ap length framed,
      length-append (contents w.out.send_buff) (frame (concat values)),
      length-frame (concat values),
      length-contents w.out.send_buff,
    ) in
    let whole : contents c ≡ stream (bodies ++ (concat values ∷ [])) =
      framed
      ∙ ap (λ xs. xs ++ frame (concat values)) held
      ∙ sym (stream-end bodies (concat values)) in
    let (d, received, v', left) =
      on_receive-stream g deliver fuel rounds peer (contents c) (bodies ++ (concat values ∷ [])) []
        hd f' (omega (arith, length-append bodies (concat values ∷ []))) v (omega (arith, total))
        (omega (arith, total))
        (ap₂ ◌++◌
            (length-zero (contents peer.recv_buff) (omega (arith, length-contents peer.recv_buff)))
            whole
          ∙ sym (append-nil (stream (bodies ++ (concat values ∷ [])))))
        (inl (omega arith)) (omega arith) in
    (
      c,
      d,
      contents c,
      sent
          ∙ writes (with_send w c)
          ∙ do_write-datagram h (with_send w c) r'.valid (omega (arith, total, length-contents c))
              (omega (arith, total, length-contents c)),
      whole,
      received,
      left,
    )
