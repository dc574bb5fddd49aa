-- ===== src/Programs/Server/Serving.antt =====
-- The server from what kcp has received to what it hands kcp.
use simple_network.Base.{
  ℕ, suc, zero, ◌+◌, ◌≤◌, ◌<◌, ◌≡◌, refl, sym, ap, ◌∙◌, false, Bool, some, List, [], ◌∷◌, ◌++◌,
  append-nil, length, take, take-whole, Bytes, ok, arith,
}
use simple_network.Buffer.Circle.{Circle, remove}
use simple_network.Buffer.Circle.Valid.{IsValid, count, contents, length-contents}
use simple_network.Packet.Frames.{frame, length-frame}
use simple_network.Packet.Writing.{Roomy}
use simple_network.Connection.{World, with_send}
use simple_network.Connection.Reading.{length-zero}
use simple_network.Connection.First.{on_read-only}
use simple_network.Kcp.{Ikcp}
use simple_network.Kcp.Socket.{Line, with_kcp, update}
use simple_network.Kcp.Updating.{talked, filled, asked, update-on_read}
use simple_network.Programs.Server.{Session, with_session, server}
use simple_network.Programs.Server.Echo.{on_recv-echo}

-- The connection when it has printed a number and handed kcp what was still to be sent, and the number.
abbrev pub answered :
    {K : Type 0} → Ikcp K → World (Line K Session) → K → Bytes → Circle → World (Line K Session)
answered i w kcp number c =
    with_send
      (with_kcp
        (with_session w (record w.out.env.app { printed = w.out.env.app.printed ++ (number ∷ []) }))
        (some (i.send kcp (contents w.out.send_buff ++ frame number))))
      c

-- `update` of the server's socket with an empty receive buffer that has room for eight bytes behind
-- its tail, when kcp has received the packet of one number, and `send` takes all datagrams: the number
-- is printed, and kcp gets one message, what was still to be sent and the same packet; the receive
-- buffer is empty again. The send buffer starts its block and has room to grow, and fuel is above 4
-- and what it may grow to.
pub update-echo :
    {K : Type 0} (i : Ikcp K) {k limit : ℕ} (fuel rounds current : ℕ) (error : Bytes → Bool)
    (w : World (Line K Session)) (kcp kcp₁ kcp₂ : K) (ds : List Bytes) (number : Bytes)
    → IsValid w.recv_buff
    → count w.recv_buff ≡ 0
    → w.out.env.kcp ≡ some kcp
    → i.update kcp current ≡ (kcp₁, ds)
    → ((bytes : Bytes) → error bytes ≡ false)
    → i.recv kcp₁ (asked w.recv_buff) ≡ (frame number, kcp₂)
    → length number ≡ 4
    → 8 ≤ asked w.recv_buff
    → Roomy k limit w.out.send_buff
    → limit + k < fuel
    → 4 < fuel
    → 0 < rounds
    → count w.out.send_buff + 8 < limit
    → (c : Circle) × (d : Circle) × (update i (server i fuel) fuel rounds error current w
        ≡ ok (record (answered i (talked w kcp₂ ds) kcp₂ number c) { recv_buff = d }))
      × (count c ≡ 0)
      × (contents d ≡ [])
unfolding server
update-echo i zero rounds current error w kcp kcp₁ kcp₂ ds number v none_held there sends fine gives
      int space r f f' pos room =
    absurd (omega arith)
update-echo i (suc fuel) zero current error w kcp kcp₁ kcp₂ ds number v none_held there sends fine
      gives int space r f f' pos room =
    absurd (omega arith)
update-echo i (suc fuel) (suc rounds) current error w kcp kcp₁ kcp₂ ds number v none_held there
      sends fine gives int space r f f' pos room =
    let (run, valid, held) =
      update-on_read i (server i (suc fuel)) fuel (suc rounds) current error w kcp kcp₁ kcp₂ ds
        (frame number) v there sends fine gives (omega arith) (omega (arith, length-frame number))
        (omega (arith, length-frame number, int)) in
    let w₁ = filled w kcp₂ ds (frame number) in
    let only : contents w₁.recv_buff ≡ frame number ++ [] =
      held
      ∙ ap (λ xs. xs ++ frame number)
          (length-zero (contents w.recv_buff) (length-contents w.recv_buff ∙ none_held))
      ∙ sym (append-nil (frame number)) in
    let (c, got, empty) =
      on_recv-echo i (suc fuel) kcp₂ w₁ number [] valid only (omega (arith, int)) refl r f f'
        room in
    let (read, _, left) =
      on_read-only (server i (suc fuel)) (suc fuel) f' w₁ number [] valid only rounds
        (answered i w₁ kcp₂ (take 4 number) c).out got refl in
    let d = remove w₁.recv_buff (length number + 4) in
    let whole : take 4 number ≡ number = take-whole 4 number int in
    (
      c,
      d,
      run
          ∙ read
          ∙ ap (λ n. ok (record (answered i (talked w kcp₂ ds) kcp₂ n c) { recv_buff = d })) whole,
      empty,
      left,
    )
