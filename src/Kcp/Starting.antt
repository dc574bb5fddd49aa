-- ===== src/Kcp/Starting.antt =====
-- The first datagram of a conversation: it makes the kcp object of kcp/socket.h, and all that has been
-- queued before goes through it.
use simple_network.Base.{
  ℕ, ◌-◌, ◌<◌, ◌≡◌, ◌≢◌, ap, ◌∙◌, false, none, some, List, take, word_size, of_bytes, Bytes, Run,
  ok, ◌>>=◌, ne→==, arith,
}
use simple_network.Buffer.Circle.{Circle}
use simple_network.Buffer.Circle.Valid.{IsValid, count, contents}
use simple_network.Connection.{World, Hooks, with_send}
use simple_network.Kcp.{Ikcp, create_kcp}
use simple_network.Kcp.Sending.{send_all, joined, do_write-messages}
use simple_network.Kcp.Socket.{
  Line, with_line, with_kcp, do_read, ensure_kcp, input_kcp, write_kcp, on_receive,
}

-- A datagram with a conversation, on a socket without a kcp object: the object is made for the
-- conversation, kcp gets messages that together are the bytes queued, in order, and then the datagram,
-- the send buffer is valid and empty, and the socket waits again; fuel above the number of bytes queued
-- is enough.
pub on_receive-first :
    {K E : Type 0} (i : Ikcp K) (h : Hooks (Line K E)) (fuel : ℕ) (buffer : Bytes) (size : ℕ)
    (w : World (Line K E))
    → of_bytes (take word_size buffer) ≢ 0
    → w.out.env.kcp ≡ none
    → 0 < w.out.env.reads
    → IsValid w.out.send_buff
    → count w.out.send_buff < fuel
    → (messages : List Bytes) × (c : Circle) × (on_receive i h fuel false buffer size w
        ≡ ok (
            with_send
              (with_kcp w (
                some (
                  i.input
                    (send_all i (create_kcp i (of_bytes (take word_size buffer))) messages)
                    (take size buffer))))
              c))
      × (joined messages ≡ contents w.out.send_buff)
      × IsValid c
      × (count c ≡ 0)
unfolding on_receive ensure_kcp input_kcp do_read write_kcp
on_receive-first {K} {E} i h fuel buffer size w conv no_kcp pos v enough =
    let (messages, c, run, all, valid, empty) =
      do_write-messages i fuel (create_kcp i number) w.out.send_buff v enough in
    (
      messages,
      c,
      rw (ne→== _ _ conv) (
          ap (λ o. ensure_kcp i h fuel number o w₀ >>= continue) no_kcp
          ∙ rw run (
              ap
                (λ n. ok (
                  with_send
                    (with_line w (record w.out.env {
                      kcp =
                          some (
                            i.input (send_all i (create_kcp i number) messages) (take size buffer));
                      reads = n;
                    }))
                    c))
                (omega arith))),
      all,
      valid,
      empty,
    )
  where
    number : ℕ
    number = of_bytes (take word_size buffer)

    w₀ : World (Line K E)
    w₀ = with_line w (record w.out.env { reads = w.out.env.reads - 1 })

    continue : World (Line K E) → Run (World (Line K E))
    continue w₁ = do w₂ ← input_kcp i h w₁.out.env.kcp (take size buffer) w₁; ok (do_read w₂)
