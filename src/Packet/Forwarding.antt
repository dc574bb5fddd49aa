-- ===== src/Packet/Forwarding.antt =====
-- `writer << reader`: what is left of one packet goes into another, over `circle::write` of a circle.
use simple_network.Base.{
  ◌^◌, ℕ, zero, suc, ◌+◌, ◌-◌, ◌≤◌, ◌<◌, ◌≡◌, refl, ap, ◌∙◌, inl, inr, ◌++◌, append_assoc, length,
  take, drop, add64, sub64, add32, word_size, to_bytes, length-to_bytes, open_length, take-append,
  drop-append, Bytes, ok, arith, eq→==, ne→==, eq-or-ne, length-tabulate, length-append,
}
use simple_network.Buffer.Circle.{Circle, write_circle}
use simple_network.Buffer.Circle.Valid.{
  IsValid, range, count, contents, count-lt, range-contents, length-contents,
}
use simple_network.Buffer.Circle.Reading.{
  piece, no_wrap, piece-eq, piece-le, piece-pos, load-piece, range-pieces,
}
use simple_network.Packet.{Writer, insert_reader}
use simple_network.Packet.Frames.{frame}
use simple_network.Packet.Reading.{reader_of, frame-count}
use simple_network.Packet.Writing.{Roomy, Open, append-Roomy, count-contents}

-- Bytes of one buffer behind those of another, which holds some already and has room to grow. Fuel above
-- the number of bytes and what the largest append needs is enough.
pub write_circle-append :
    {k limit : ℕ} (fuel o n : ℕ) {c source : Circle}
    → Roomy k limit c
    → IsValid source
    → 0 < count c
    → o + n ≤ count source
    → 0 < n
    → limit + k + n < fuel
    → count c + n < limit
    → (c' : Circle) × (write_circle fuel c source o n ≡ ok c')
      × Roomy k limit c'
      × (contents c' ≡ contents c ++ range source o n)
unfolding write_circle
write_circle-append zero o n r v held h pos f room = absurd (omega arith)
write_circle-append (suc fuel) o n {c} {source} r v held h pos f room =
    let p = piece source o n in
    let (c₁, e₁, r₁, b₁) =
      append-Roomy fuel (range source o p) r (omega (arith, piece-pos v o n h pos, counted p))
        (omega arith) (omega (arith, piece-le v o n h, counted p)) (inl held) in
    let more : count c₁ ≡ count c + p = omega (
      arith,
      count-contents c₁ _ b₁,
      length-append (contents c) (range source o p),
      counted p,
      length-contents c,
    ) in
    elim (eq-or-ne (n - p) 0) [
      | inl all ↦ (
        c₁,
        rw (
          no_wrap v o n h,
          piece-eq v o n h,
          ne→== p 0 (omega (arith, piece-pos v o n h pos)),
          load-piece v o n h,
          e₁,
          eq→== _ _ all,
        ),
        r₁,
        b₁
            ∙ ap (λ j. contents c ++ range source o j) {x = p} {y = n}
                (omega (arith, piece-le v o n h)),
      )
      | inr left ↦
          let (c₂, e₂, r₂, b₂) =
            write_circle-append fuel (o + p) (n - p) r₁ v (omega (arith, more))
              (omega (arith, piece-le v o n h)) (omega arith) (omega (arith, piece-pos v o n h pos))
              (omega (arith, more, piece-le v o n h)) in
          (
            c₂,
            rw
                (
                  no_wrap v o n h,
                  piece-eq v o n h,
                  ne→== p 0 (omega (arith, piece-pos v o n h pos)),
                  load-piece v o n h,
                  e₁,
                  ne→== _ _ left,
                  steps,
                )
                e₂,
            r₂,
            b₂
                ∙ ap (λ xs. xs ++ range source (o + p) (n - p)) b₁
                ∙ append_assoc (contents c) (range source o p) (range source (o + p) (n - p))
                ∙ ap (◌++◌ (contents c)) (range-pieces source o p n (piece-le v o n h)),
          )
    ]
  where
    counted : (j : ℕ) → length (range source o j) ≡ j
    counted j = length-tabulate j _

    steps : add64 o (piece source o n) ≡ o + piece source o n
    steps = omega (arith, v.sized.small, count-lt v, piece-le v o n h)

-- A reader that has just been opened on a packet of at least one byte: inserting it into an open packet
-- inserts the packet's bytes.
pub insert_reader-Open :
    {k limit : ℕ} (fuel : ℕ) (before body packet rest : Bytes) {w : Writer} {c source : Circle}
    → Open k limit before body w c
    → IsValid source
    → contents source ≡ frame packet ++ rest
    → 0 < length packet
    → limit + k + length packet < fuel
    → length before + 4 + length body + length packet < limit
    → (w' : Writer) × (c' : Circle) × (insert_reader fuel c w source (reader_of (length packet))
        ≡ ok (w', c'))
      × Open k limit before (body ++ packet) w' c'
unfolding insert_reader
insert_reader-Open fuel before body packet rest {w} {c} {source} o v e pos f room =
    let held : count c ≡ length before + (4 + length body) = omega (
      arith,
      count-contents c _ o.bytes,
      length-append before (to_bytes open_length ++ body),
      length-append (to_bytes open_length) body,
      length-to_bytes open_length,
    ) in
    let (c', run, r', bytes) =
      write_circle-append fuel 4 (length packet) o.roomy v (omega (arith, held))
        (omega (arith, frame-count packet rest v e)) pos f (omega (arith, held)) in
    (
      record w { size = add32 w.size (length packet) },
      c',
      rw (all, run),
      record {
        roomy = r';
        bytes =
            bytes
            ∙ ap (◌++◌ (contents c)) read
            ∙ ap (λ xs. xs ++ packet) o.bytes
            ∙ append_assoc before (to_bytes open_length ++ body) packet
            ∙ ap (◌++◌ before) (append_assoc (to_bytes open_length) body packet);
        at = o.at;
        counted =
            omega
              (arith, o.counted, length-append body packet, o.roomy.below, o.roomy.valid.bounded);
      },
    )
  where
    small : length packet < 2 ^ 30
    small = omega (arith, frame-count packet rest v e, count-lt v, v.sized.small)

    all : sub64 (add64 (length packet) word_size) word_size ≡ length packet
    all = omega (arith, small)

    read : range source 4 (length packet) ≡ packet
    read =
        range-contents source 4 (length packet) (omega (arith, frame-count packet rest v e))
        ∙ ap (λ xs. take (length packet) (drop 4 xs))
            (e ∙ append_assoc (to_bytes (length packet)) packet rest)
        ∙ ap (take (length packet)) (
            drop-append 4 (to_bytes (length packet)) (packet ++ rest)
              (length-to_bytes (length packet)))
        ∙ take-append (length packet) packet rest refl
