-- ===== src/Programs/Client/Answered.antt =====
-- What the client does when the server has answered it.
use simple_network.Base.{
  ℕ, ◌+◌, ◌%◌, ◌^◌, ◌≤◌, ◌<◌, ◌≡◌, refl, ap, ◌∙◌, ◌⊎◌, Bool, false, some, List, [], ◌∷◌, ◌++◌,
  to_bytes, length-to_bytes, length, Bytes, Run, ok, ◌>>=◌, arith, if◌then◌else◌,
}
use simple_network.Buffer.Circle.{Circle, size}
use simple_network.Buffer.Circle.Valid.{IsValid, count, contents}
use simple_network.Packet.Frames.{frame}
use simple_network.Packet.Writing.{Roomy}
use simple_network.Connection.{
  State, World, Outside, connected, with_send, is_connected, is_disconnected,
}
use simple_network.Connection.Reading.{stream, deliver_all, IsPartial}
use simple_network.Kcp.{Ikcp}
use simple_network.Kcp.Socket.{Line, with_line, socket}
use simple_network.Kcp.Connector
use simple_network.Kcp.Connector.{connect}
use simple_network.Kcp.Updating.{talked, asked, update-stream}
use simple_network.Programs.Sending.{int-Flushable, send_value-kcp}
use simple_network.Programs.Client.{client, send_counter, on_time}

-- The client does nothing with a packet.
ignore_all :
    {E : Type 0} (out : Outside E) (bodies : List Bytes)
    → deliver_all (λ out body. out) out bodies ≡ out
ignore_all out [] = refl
ignore_all out (body ∷ bodies) = ignore_all out bodies

-- A client that has counted on and handed kcp what was still to be sent, and its counter.
abbrev pub sent : {K : Type 0} → Ikcp K → World (Line K ℕ) → K → Circle → World (Line K ℕ)
sent i w kcp c =
    with_send
      (with_line w (record w.out.env {
        kcp = some (i.send kcp (contents w.out.send_buff ++ frame (to_bytes w.out.env.app)));
        app = (w.out.env.app + 1) % 2 ^ 32;
      }))
      c

-- At each time, a connected client with a kcp object that has received some bytes, or that holds no
-- whole packet, when `send` takes all datagrams, and the space behind the tail all the bytes received:
-- every whole packet leaves the receive buffer, the partial one behind them stays, kcp gets one
-- message, what was still to be sent and the counter as a packet, and the client counts on, when the
-- send buffer starts its block and has room to grow; with more rounds than packets, and fuel above 4
-- and what the send buffer may grow to.
pub on_time-answered :
    {K : Type 0} (i : Ikcp K) {k limit : ℕ} (fuel rounds current : ℕ) (refused error : Bool)
    (lost : Bytes → Bool) (w : World (Line K ℕ)) (kcp kcp₁ kcp₂ : K) (ds : List Bytes)
    (chunk : Bytes) (bodies : List Bytes) (rest : Bytes)
    → w.out.state ≡ connected
    → 4 < fuel
    → length bodies < rounds
    → IsValid w.recv_buff
    → w.out.env.kcp ≡ some kcp
    → i.update kcp current ≡ (kcp₁, ds)
    → ((bytes : Bytes) → lost bytes ≡ false)
    → i.recv kcp₁ (asked w.recv_buff) ≡ (chunk, kcp₂)
    → (0 < length chunk) ⊎ IsPartial (contents w.recv_buff)
    → length chunk ≤ asked w.recv_buff
    → count w.recv_buff + 1 < size w.recv_buff
    → contents w.recv_buff ++ chunk ≡ stream bodies ++ rest
    → IsPartial rest
    → Roomy k limit w.out.send_buff
    → limit + k < fuel
    → count w.out.send_buff + 8 < limit
    → (c : Circle) × (d : Circle) × (on_time i fuel rounds refused error lost current w
        ≡ ok (sent i (record (talked w kcp₂ ds) { recv_buff = d }) kcp₂ c))
      × (count c ≡ 0)
      × IsValid d
      × (contents d ≡ rest)
unfolding on_time send_counter Connector.on_time client socket
on_time-answered {K} i fuel rounds current refused error lost w kcp kcp₁ kcp₂ ds chunk bodies rest
      up f' more v there sends fine gives pos fits space e p r f room =
    let (d, run, valid, left) =
      update-stream i (client i fuel) (λ out body. out) fuel rounds current lost w kcp kcp₁ kcp₂ ds
        chunk bodies rest (λ w body rest v e. refl) f' more v there sends fine gives pos fits space
        e p in
    let w₁ = record (talked w kcp₂ ds) { recv_buff = d } in
    let (c, done, _, empty) =
      send_value-kcp i _ fuel kcp₂
        (with_line w₁ (record w₁.out.env { app = (w₁.out.env.app + 1) % 2 ^ 32 }))
        (to_bytes w.out.env.app) refl r (omega (arith, length-to_bytes w.out.env.app)) f
        (omega (arith, length-to_bytes w.out.env.app))
        (int-Flushable (contents w.out.send_buff) (to_bytes w.out.env.app)
          (length-to_bytes w.out.env.app)) in
    (
      c,
      d,
      ap (λ x. x >>= λ w'. next w' w'.out.state)
            (run
              ∙ ap (λ o. ok (record { recv_buff = d; out = o }))
                  (ignore_all (talked w kcp₂ ds).out bodies))
          ∙ ap (next w₁) up
          ∙ done,
      empty,
      valid,
      left,
    )
  where
    next : World (Line K ℕ) → State → Run (World (Line K ℕ))
    next w' s =
        if is_disconnected s
        then connect i (client i fuel) refused error w'
        else if is_connected s
        then send_counter i fuel w'
        else ok w'
