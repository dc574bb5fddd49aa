-- ===== src/Connection/Defects.antt =====
-- Inputs on which `connection::on_read` goes wrong: a length that wraps, and an `on_recv` that empties
-- the receive buffer, as `tcp::socket::close` does on a disconnect.
use native.Mathlib.Nat.{mod-eq_of_lt}
use simple_network.Base.{
  ℕ, zero, suc, ◌+◌, ◌-◌, ◌%◌, ◌^◌, ◌<◌, ◌≡◌, refl, sym, ap, ◌∙◌, ◌++◌, length, take, add64,
  to_bytes, length-to_bytes, of_bytes-to_bytes, length-append, take-append, Bytes, ok, out_of_fuel,
  arith, le→ltb, ne→==,
}
use simple_network.Buffer.{read_value_at}
use simple_network.Buffer.Circle.{Circle, size, get_count, remove, reset}
use simple_network.Buffer.Circle.Index.{size_pos}
use simple_network.Buffer.Circle.Valid.{
  IsValid, moved, count, contents, get_count-eq, length-contents,
}
use simple_network.Buffer.Circle.Reading.{read-peek}
use simple_network.Packet.{Reader, open_reader}
use simple_network.Connection.{World, Outside, Hooks, on_read}

-- The least length to which the size of its own field cannot be added in a `uint32`.
abbrev pub wrapping_length : ℕ
wrapping_length = 2 ^ 32 - 4

remove-nothing : {c : Circle} → IsValid c → remove c 0 ≡ c
unfolding remove
remove-nothing {c} v =
    ap (λ h. record c { head = h })
      (ap (λ h. h % size c) {x = add64 c.head 0} {y = c.head}
          (omega (arith, v.head_in, v.sized.small))
        ∙ mod-eq_of_lt v.head_in)

-- A peer that announces a packet of 2 ^ 32 - 4 bytes makes `on_read` loop for ever, on any number of
-- rounds, whatever an `on_recv` that leaves the receive buffer alone does.
pub on_read-hangs :
    {E : Type 0} (h : Hooks E) (f : Outside E → Reader → Outside E)
    → ((w : World E) (r : Reader) → h.on_recv w r ≡ ok (record w { out = f w.out r }))
    → (fuel rounds : ℕ) (w : World E) (rest : Bytes) → 4 < fuel
    → IsValid w.recv_buff
    → contents w.recv_buff ≡ to_bytes wrapping_length ++ rest
    → on_read h fuel rounds w ≡ out_of_fuel
unfolding on_read open_reader read_value_at
on_read-hangs h f hf fuel zero w rest enough v e = refl
on_read-hangs h f hf fuel (suc rounds) w rest enough v e =
    rw
      (
        get_count-eq v,
        le→ltb (count w.recv_buff) 4 (omega (arith, counted)),
        read-peek fuel 4 0 v enough (omega (arith, counted)),
        header,
        of_bytes-to_bytes wrapping_length (omega arith),
        get_count-eq v,
        le→ltb (count w.recv_buff) 0 (omega arith),
        read-peek fuel 4 0 v enough (omega (arith, counted)),
        hf,
        remove-nothing v,
        get_count-eq v,
        ne→== (count w.recv_buff) 0 (omega (arith, counted)),
      )
      (on_read-hangs h f hf fuel rounds _ rest enough v e)
  where
    counted : count w.recv_buff ≡ 4 + length rest
    counted = omega (
      arith,
      sym (length-contents w.recv_buff) ∙ ap length e,
      length-append (to_bytes wrapping_length) rest,
      length-to_bytes wrapping_length,
    )

    header : take 4 (contents w.recv_buff) ≡ to_bytes wrapping_length
    header =
        ap (take 4) e
        ∙ take-append 4 (to_bytes wrapping_length) rest (length-to_bytes wrapping_length)

-- After a `reset` in `on_recv` the packet is removed all the same: the empty buffer then counts all of
-- its block but the packet's bytes as received.
pub remove-reset :
    {c : Circle} (n : ℕ)
    → IsValid c
    → 0 < n
    → n < size c
    → IsValid (remove (reset c) n) × (get_count (remove (reset c) n) ≡ size c - n)
unfolding remove reset
remove-reset {c} n v pos h = rw place (v', get_count-eq v' ∙ ground arith)
  where
    place : add64 0 n % size c ≡ n
    place =
        ap (λ h. h % size c) {x = add64 0 n} {y = n} (omega (arith, v.sized.small)) ∙ mod-eq_of_lt h

    v' : IsValid (record c { head = n; tail = 0 })
    v' = moved n 0 v h (size_pos v.sized)
