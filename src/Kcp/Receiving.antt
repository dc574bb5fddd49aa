-- ===== src/Kcp/Receiving.antt =====
-- The receiving side of kcp/socket.h, and what becomes of a socket whose `send` fails.
use simple_network.Base.{
  ℕ, ◌-◌, ◌<◌, ◌≡◌, ◌≢◌, ap, ◌∙◌, Bool, true, false, some, List, [], ◌∷◌, ◌++◌, take, word_size,
  of_bytes, Bytes, ok, fault, ◌>>=◌, eq→==, ne→==, arith,
}
use simple_network.Connection.{World, Hooks, on_close}
use simple_network.Kcp.{Ikcp}
use simple_network.Kcp.Socket.{
  Line, with_line, with_kcp, do_read, close, output, output_all, receive, update_kcp, update,
  ensure_kcp, input_kcp, on_receive,
}

-- A datagram whose conversation is 0 ends the receiving: no receive is out afterwards, when one was, and
-- nothing else has changed.
pub on_receive-zero :
    {K E : Type 0} (i : Ikcp K) (h : Hooks (Line K E)) (fuel : ℕ) (buffer : Bytes) (count : ℕ)
    (w : World (Line K E))
    → of_bytes (take word_size buffer) ≡ 0
    → w.out.env.reads ≡ 1
    → (w' : World (Line K E)) × (on_receive i h fuel false buffer count w ≡ ok w')
      × (w'.out.env.reads ≡ 0)
      × (w' ≡ with_line w (record w.out.env { reads = 0 }))
unfolding on_receive
on_receive-zero {K} {E} i h fuel buffer count w zero_conv one = (
  with_line w (record w.out.env { reads = w.out.env.reads - 1 }),
  rw (eq→== _ _ zero_conv),
  omega arith,
  ap (λ n. with_line w (record w.out.env { reads = n })) (omega arith),
)

-- Any other datagram goes to the kcp object of the socket, which waits for the next one.
pub on_receive-input :
    {K E : Type 0} (i : Ikcp K) (h : Hooks (Line K E)) (fuel : ℕ) (buffer : Bytes) (count : ℕ)
    (k : K) (w : World (Line K E))
    → of_bytes (take word_size buffer) ≢ 0
    → w.out.env.kcp ≡ some k
    → 0 < w.out.env.reads
    → on_receive i h fuel false buffer count w
      ≡ ok (with_kcp w (some (i.input k (take count buffer))))
unfolding on_receive ensure_kcp input_kcp do_read
on_receive-input {K} {E} i h fuel buffer count k w conv there pos = rw (ne→== _ _ conv) (
    ap
      (λ o. ensure_kcp i h fuel (of_bytes (take word_size buffer)) o w₀ >>= λ w₁.
        input_kcp i h w₁.out.env.kcp bytes w₁ >>= λ w₂. ok (do_read w₂))
      there
    ∙ ap (λ o. input_kcp i h o bytes w₀ >>= λ w₂. ok (do_read w₂)) there
    ∙ ap (λ n. ok (with_line w (record w.out.env { kcp = some (i.input k bytes); reads = n })))
        (omega arith))
  where
    bytes : Bytes
    bytes = take count buffer

    w₀ : World (Line K E)
    w₀ = with_line w (record w.out.env { reads = w.out.env.reads - 1 })

-- A datagram of kcp for which `send` fails closes the socket in the middle of `update`, which then reads
-- from a null pointer, when the connection's `on_close` returns.
pub update-null :
    {K E : Type 0} (i : Ikcp K) (h : Hooks (Line K E)) (fuel rounds : ℕ) (error : Bytes → Bool)
    (current : ℕ) (k k' : K) (bytes : Bytes) (w v : World (Line K E))
    → w.out.env.kcp ≡ some k
    → i.update k current ≡ (k', bytes ∷ [])
    → error bytes ≡ true
    → on_close h (
        with_line w (record w.out.env {
          kcp = some k';
          datagrams = w.out.env.datagrams ++ (bytes ∷ []);
          is_open = false;
        }))
      ≡ ok v
    → update i h fuel rounds error current w ≡ fault
unfolding update update_kcp output_all output close receive
update-null i h fuel rounds error current k k' bytes w v there sends fails returns =
    ap (λ o. update_kcp i h fuel rounds error current o w) there
    ∙ ap
        (λ (r : _ × List Bytes). output_all i h error r.1 (with_kcp w (some r.0)) >>= λ w'.
          receive i h fuel rounds w'.out.env.kcp w')
        sends
    ∙ rw (fails, returns)
