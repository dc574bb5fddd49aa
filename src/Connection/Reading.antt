-- ===== src/Connection/Reading.antt =====
-- The loop of `connection::on_read`, for an `on_recv` that leaves the receive buffer alone.
use simple_network.Base.{
  ℕ, zero, suc, ◌+◌, ◌≤◌, ◌<◌, ◌≡◌, refl, sym, ap, subst, ◌∙◌, ◌⊎◌, inl, inr, List, [], ◌∷◌, ◌++◌,
  append-nil, append_assoc, ◌==◌, if◌then◌else◌, length, take, add32, word_size, of_bytes,
  length-append, Bytes, ok, arith, lt→ltb, le→ltb, eq→==, ne→==, eq-or-ne,
}
use simple_network.Buffer.Circle.{Circle, size, get_count, remove}
use simple_network.Buffer.Circle.Valid.{IsValid, count, contents, get_count-eq, length-contents}
use simple_network.Buffer.Circle.Reading.{read-peek}
use simple_network.Packet.Frames.{frame, length-frame}
use simple_network.Packet.Reading.{reader_of}
use simple_network.Connection.First.{on_read-first, announced}
use simple_network.Connection.{World, Outside, Hooks, on_read}

-- The packets of a stream, one behind the other.
abbrev pub stream : List Bytes → Bytes
stream [] = []
stream (body ∷ bodies) = frame body ++ stream bodies

pub stream-end :
    (bodies : List Bytes) (body : Bytes)
    → stream (bodies ++ (body ∷ [])) ≡ stream bodies ++ frame body
stream-end [] body = append-nil (frame body)
stream-end (b ∷ bodies) body =
    ap (◌++◌ (frame b)) (stream-end bodies body)
    ∙ sym (append_assoc (frame b) (stream bodies) (frame body))

pub length-zero : (xs : Bytes) → length xs ≡ 0 → xs ≡ []
length-zero [] e = refl
length-zero (x ∷ xs) e = absurd (omega arith)

-- What a list of packets makes of the outside, one after the other.
abbrev pub deliver_all :
    {E : Type 0} → (Outside E → Bytes → Outside E) → Outside E → List Bytes → Outside E
deliver_all deliver out [] = out
deliver_all deliver out (body ∷ bodies) = deliver_all deliver (deliver out body) bodies

-- Not yet a packet: the length is missing, or some of the bytes that it announces.
abbrev pub IsPartial : Bytes → Type 0
IsPartial bs =
    (length bs < 4) ⊎ ((4 ≤ length bs) × (length bs < add32 (of_bytes (take 4 bs)) word_size))

-- `on_recv` does with a packet at the start of the receive buffer what `deliver` says.
abbrev pub Delivers : {E : Type 0} → Hooks E → (Outside E → Bytes → Outside E) → Type 0
Delivers {E} h deliver =
    (w : World E) (body rest : Bytes)
    → IsValid w.recv_buff
    → contents w.recv_buff ≡ frame body ++ rest
    → h.on_recv w (reader_of (length body)) ≡ ok (record w { out = deliver w.out body })

-- A buffer with a partial packet holds no whole one.
pub IsPartial-none :
    {c : Circle} (bodies : List Bytes) (rest : Bytes)
    → IsValid c
    → contents c ≡ stream bodies ++ rest
    → IsPartial (contents c)
    → bodies ≡ []
IsPartial-none [] rest v e p = refl
IsPartial-none {c} (body ∷ bodies) rest v e p =
    let (header, body_there) =
      announced body (stream bodies ++ rest) v
        (e ∙ append_assoc (frame body) (stream bodies) rest) in
    absurd
      (elim p [ inl short ↦ omega arith | inr (header', short) ↦ omega (arith, body_there, short) ])

nothing-left :
    (bodies : List Bytes) (rest : Bytes)
    → length (stream bodies ++ rest) ≡ 0
    → (bodies ≡ []) × (rest ≡ [])
nothing-left [] [] e = (refl, refl)
nothing-left [] (x ∷ rest) e = absurd (omega arith)
nothing-left (body ∷ bodies) rest e = absurd (
    omega (
      arith,
      length-append (frame body ++ stream bodies) rest,
      length-append (frame body) (stream bodies),
      length-frame body,
    ))

module _ {E : Type 0} (h : Hooks E) (deliver : Outside E → Bytes → Outside E)
    (hd : Delivers h deliver) (fuel : ℕ) (enough : 4 < fuel) where
  -- A partial packet stays where it is.
  on_read-partial :
      (rounds : ℕ) (w : World E)
      → IsValid w.recv_buff
      → IsPartial (contents w.recv_buff)
      → on_read h fuel (suc rounds) w ≡ ok w
  unfolding on_read
  on_read-partial rounds w v (inl short) = rw (
    get_count-eq v,
    lt→ltb (count w.recv_buff) 4 (omega (arith, short, length-contents w.recv_buff)),
  )
  on_read-partial rounds w v (inr (some_length, short)) = rw (
    get_count-eq v,
    le→ltb (count w.recv_buff) 4 (omega (arith, some_length, length-contents w.recv_buff)),
    read-peek fuel 4 0 v enough (omega (arith, some_length, length-contents w.recv_buff)),
    get_count-eq v,
    lt→ltb (count w.recv_buff) (add32 (of_bytes (take 4 (contents w.recv_buff))) 4)
        (omega (arith, short, length-contents w.recv_buff)),
  )

  -- A whole packet is delivered and removed.
  on_read-packet :
      (rounds : ℕ) (w : World E) (body rest : Bytes)
      → IsValid w.recv_buff
      → contents w.recv_buff ≡ frame body ++ rest
      → let c = remove w.recv_buff (length body + 4) in
        (on_read h fuel (suc rounds) w ≡ (
          if get_count c == 0
          then ok (record { recv_buff = c; out = deliver w.out body })
          else on_read h fuel rounds (record { recv_buff = c; out = deliver w.out body })))
        × IsValid c
        × (contents c ≡ rest)
  on_read-packet rounds w body rest v e =
      on_read-first h fuel enough w body rest v e rounds (deliver w.out body) (hd w body rest v e)

  -- The loop to its end; the block of the buffer keeps its size.
  pub on_read-runs :
      (bodies : List Bytes) (rest : Bytes) (rounds : ℕ) (w : World E)
      → IsValid w.recv_buff
      → contents w.recv_buff ≡ stream bodies ++ rest
      → IsPartial rest
      → length bodies < rounds
      → (c : Circle) × (on_read h fuel rounds w
          ≡ ok (record { recv_buff = c; out = deliver_all deliver w.out bodies }))
        × IsValid c
        × (contents c ≡ rest)
        × (size c ≡ size w.recv_buff)
  unfolding remove
  on_read-runs bodies rest zero w v e p f = absurd (omega arith)
  on_read-runs [] rest (suc rounds) w v e p f =
      (w.recv_buff, on_read-partial rounds w v (subst IsPartial (sym e) p), v, e, refl)
  on_read-runs (body ∷ bodies) rest (suc rounds) w v e p f =
      let (step, v', e') =
        on_read-packet rounds w body (stream bodies ++ rest) v
          (e ∙ append_assoc (frame body) (stream bodies) rest) in
      elim (eq-or-ne (get_count (remove w.recv_buff (length body + 4))) 0) [
        | inl empty ↦
            let (no_bodies, no_rest) =
              nothing-left bodies rest
                (sym (ap length e') ∙ length-contents _ ∙ sym (get_count-eq v') ∙ empty) in
            (
              remove w.recv_buff (length body + 4),
              step ∙ rw (eq→== _ _ empty, no_bodies),
              v',
              e' ∙ ap (λ bs. stream bs ++ rest) no_bodies,
              refl,
            )
        | inr more ↦
            let (c, done, v'', e'', same) =
              on_read-runs bodies rest rounds
                (record {
                  recv_buff = remove w.recv_buff (length body + 4);
                  out = deliver w.out body;
                })
                v' e' p (omega arith) in
            (c, step ∙ rw (ne→== _ _ more) done, v'', e'', same)
      ]

  -- `on_read` hands every whole packet of the receive buffer to `on_recv`, in order and once, and
  -- leaves the partial one behind them for the next call. More rounds than packets are enough.
  pub on_read-stream :
      (bodies : List Bytes) (rest : Bytes) (rounds : ℕ) (w : World E)
      → IsValid w.recv_buff
      → contents w.recv_buff ≡ stream bodies ++ rest
      → IsPartial rest
      → length bodies < rounds
      → (c : Circle) × (on_read h fuel rounds w
          ≡ ok (record { recv_buff = c; out = deliver_all deliver w.out bodies }))
        × IsValid c
        × (contents c ≡ rest)
  on_read-stream bodies rest rounds w v e p f =
      let (c, run, valid, held, _) = on_read-runs bodies rest rounds w v e p f in
      (c, run, valid, held)
