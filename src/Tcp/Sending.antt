-- ===== src/Tcp/Sending.antt =====
-- The sending side of tcp/socket.h: the stream that `send` takes, and the flag SENDING.
use simple_network.Base.{
  ℕ, ◌+◌, ◌-◌, ◌≤◌, ◌<◌, min, ◌≡◌, refl, sym, ap, ap₂, subst, ◌∙◌, ◌⊎◌, inl, inr, Bool, true, false,
  List, [], ◌∷◌, ◌++◌, append_assoc, length, take, drop, Bytes, ok, arith, take-append-drop, lt→ltb,
  le→ltb, lt-or-le, take-take, length-take, length-drop, ltb, if◌then◌else◌,
}
use simple_network.Buffer.Circle.{Circle, get_count, get_continguious_count, remove}
use simple_network.Buffer.Circle.Valid.{IsValid, count, contents, get_count-eq, length-contents}
use simple_network.Buffer.Circle.Moves.{remove_lem}
use simple_network.Buffer.Circle.Growing.{first, load-first, front}
use simple_network.Connection.{World, Hooks, with_send}
use simple_network.Tcp.{
  success, would_block, Link, Reply, with_link, do_write, transmit, send_loop, on_writable,
}

-- All that has been handed over for sending: what is sent, and what the buffer still holds.
abbrev pub outgoing : {E : Type 0} → World (Link E) → Bytes
outgoing w = w.out.env.sent ++ contents w.out.send_buff

-- An answer that is not an error, and does not take nothing without saying so.
abbrev pub IsFine : Reply → Type 0
IsFine r = ((r.code ≡ success) × (0 < r.room)) ⊎ (r.code ≡ would_block)

abbrev pub AreFine : List Reply → Type 0
AreFine [] = Unit
AreFine (r ∷ rs) = IsFine r × AreFine rs

module _ {E : Type 0} where
  -- What one `send` leaves: some of the bytes at the front have moved to those sent.
  abbrev Sent : World (Link E) → ℕ → World (Link E) → Type 0
  Sent w room w' =
      (transmit w room ≡ ok w')
      × IsValid w'.out.send_buff
      × (outgoing w' ≡ outgoing w)
      × (count w'.out.send_buff ≤ count w.out.send_buff)
      × (0 < room → 0 < count w.out.send_buff → count w'.out.send_buff < count w.out.send_buff)
      × (w'.out.env.writes ≡ w.out.env.writes)

  transmit_lem :
      (w : World (Link E)) (room : ℕ)
      → IsValid w.out.send_buff
      → (w' : World (Link E)) × Sent w room w'
  unfolding transmit
  transmit_lem w room v = elim (lt-or-le 0 n) [
    | inl some_sent ↦
        let (valid, rest) = remove_lem n v n-le in
        (
          with_send (with_link w (record l { sent = l.sent ++ take n (contents c) })) (remove c n),
          (
            rw (
              front-first,
              load-first v,
              exact-n,
              lt→ltb 0 n some_sent,
              take-take n (first c) (contents c) n-first,
            ),
            valid,
            ap (◌++◌ (l.sent ++ take n (contents c))) rest
                ∙ append_assoc l.sent (take n (contents c)) (drop n (contents c))
                ∙ ap (◌++◌ l.sent) (take-append-drop n (contents c)),
            omega (arith, left valid rest),
            (λ p q. omega (arith, left valid rest)),
            refl,
          ),
        )
    | inr none_sent ↦ (
      w,
      (
        rw (front-first, load-first v, exact-n, le→ltb 0 n none_sent),
        v,
        refl,
        omega arith,
        (λ p q. absurd (omega (arith, v.head_in))),
        refl,
      ),
    )
  ]
    where
      c : Circle
      c = w.out.send_buff

      l : Link E
      l = w.out.env

      n : ℕ
      n = min room (first c)

      n-first : n ≤ first c
      n-first = omega arith

      n-le : n ≤ count c
      n-le = omega arith

      front-first : get_continguious_count c ≡ first c
      front-first = front v ∙ omega (arith, front v)

      exact-n : min room (length (take (first c) (contents c))) ≡ n
      exact-n = omega (arith, length-take (first c) (contents c), length-contents c)

      left :
          IsValid (remove c n)
          → contents (remove c n) ≡ drop n (contents c)
          → count (remove c n) ≡ count c - n
      left valid rest =
          sym (length-contents (remove c n))
          ∙ ap length rest
          ∙ length-drop n (contents c)
          ∙ omega (arith, length-contents c)

module _ {E : Type 0} (h : Hooks (Link E)) where
  -- The loop with answers that are fine ends, and moves bytes from the buffer to those sent.
  send_loop-fine :
      (rs : List Reply) (w : World (Link E))
      → IsValid w.out.send_buff
      → AreFine rs
      → count w.out.send_buff < length rs
      → (w' : World (Link E)) × (send_loop h rs w ≡ ok (false, w'))
        × IsValid w'.out.send_buff
        × (outgoing w' ≡ outgoing w)
        × (w'.out.env.writes ≡ w.out.env.writes)
  unfolding send_loop
  send_loop-fine [] w v fine enough = absurd (omega arith)
  send_loop-fine (r ∷ rs) w v (inr blocked, fine) enough =
      let (w', (run, valid, same, less, strict, waits)) = transmit_lem w r.room v in
      (w', rw (run, blocked), valid, same, waits)
  send_loop-fine (r ∷ rs) w v (inl (going, room), fine) enough =
      let (w', (run, valid, same, less, strict, waits)) = transmit_lem w r.room v in
      elim (lt-or-le 0 (count w'.out.send_buff)) [
        | inl more ↦
            let (w'', run', valid', same', waits') =
              send_loop-fine rs w' valid fine (omega (arith, strict room (omega (arith, less)))) in
            (
              w'',
              rw (run, going, get_count-eq valid, lt→ltb 0 (count w'.out.send_buff) more, run'),
              valid',
              same' ∙ same,
              waits' ∙ waits,
            )
        | inr all_sent ↦ (
          w',
          rw (run, going, get_count-eq valid, le→ltb 0 (count w'.out.send_buff) all_sent),
          valid,
          same,
          waits,
        )
      ]

-- Either a wait for writing is out and SENDING says so, or neither.
abbrev pub IsArmed : {E : Type 0} → World (Link E) → Type 0
IsArmed w =
    ((w.out.env.sending ≡ true) × (w.out.env.writes ≡ 1))
    ⊎ ((w.out.env.sending ≡ false) × (w.out.env.writes ≡ 0))

-- As long as there are bytes to send, a wait for writing is out.
abbrev pub IsAwake : {E : Type 0} → World (Link E) → Type 0
IsAwake w = IsArmed w × (0 < count w.out.send_buff → w.out.env.sending ≡ true)

module _ {E : Type 0} (w : World (Link E)) where
  abbrev armed : World (Link E)
  armed = with_link w (record w.out.env { sending = true; writes = w.out.env.writes + 1 })

  abbrev next : Bool → World (Link E)
  next more = if more then armed else w

  do_write-sending : w.out.env.sending ≡ true → do_write w ≡ w
  unfolding do_write
  do_write-sending on = ap (λ b. if b then w else next (ltb 0 (get_count w.out.send_buff))) on

  do_write-idle : w.out.env.sending ≡ false → do_write w ≡ next (ltb 0 (get_count w.out.send_buff))
  unfolding do_write
  do_write-idle off = ap (λ b. if b then w else next (ltb 0 (get_count w.out.send_buff))) off

  -- What holds before and after `do_write`.
  abbrev Kept : World (Link E) → Type 0
  Kept w' = IsAwake w' × (w'.out.send_buff ≡ w.out.send_buff) × (w'.out.env.sent ≡ w.out.env.sent)

  -- `do_write` keeps one wait at most, has one out if there are bytes to send, and leaves the stream.
  pub do_write-IsAwake : IsValid w.out.send_buff → IsArmed w → Kept (do_write w)
  do_write-IsAwake v (inl (on, one)) =
      subst Kept (sym (do_write-sending on)) ((inl (on, one), (λ p. on)), refl, refl)
  do_write-IsAwake v (inr (off, idle)) = elim (lt-or-le 0 (count w.out.send_buff)) [
    | inl more ↦
        subst Kept
          (sym (
            do_write-idle off
            ∙ ap next (ap (ltb 0) (get_count-eq v) ∙ lt→ltb 0 (count w.out.send_buff) more)))
          ((inl (refl, omega arith), (λ p. refl)), refl, refl)
    | inr empty ↦
        subst Kept
          (sym (
            do_write-idle off
            ∙ ap next (ap (ltb 0) (get_count-eq v) ∙ le→ltb 0 (count w.out.send_buff) empty)))
          ((inr (off, idle), (λ p. absurd (omega arith))), refl, refl)
  ]

-- The handler of the wait for writing, with answers that are fine and more of them than bytes to send,
-- ends with a valid buffer, has lost and added no byte of the stream, and waits again if and only if
-- there are bytes left.
pub on_writable-stream :
    {E : Type 0} (h : Hooks (Link E)) (rs : List Reply) (w : World (Link E))
    → IsValid w.out.send_buff
    → w.out.env.writes ≡ 1
    → AreFine rs
    → count w.out.send_buff < length rs
    → (w' : World (Link E)) × (on_writable h false rs w ≡ ok w')
      × IsValid w'.out.send_buff
      × IsAwake w'
      × (outgoing w' ≡ outgoing w)
unfolding on_writable
on_writable-stream {E} h rs w v one fine enough =
    let (w', run, valid, same, waits) = send_loop-fine h rs w₀ v fine enough in
    let after = idle w' in
    let (awake, buff, sent) = do_write-IsAwake after valid (inr (refl, waits ∙ omega arith)) in
    (
      do_write after,
      rw run,
      subst IsValid (sym buff) valid,
      awake,
      ap₂ (λ xs c. xs ++ contents c) sent buff ∙ same,
    )
  where
    w₀ : World (Link E)
    w₀ = with_link w (record w.out.env { writes = w.out.env.writes - 1 })

    idle : World (Link E) → World (Link E)
    idle w' = with_link w' (record w'.out.env { sending = false })
