-- ===== src/Kcp/Socket.antt =====
-- `class socket` of lib/asio_reactor/kcp/socket.h: a connection's socket whose bytes go through a kcp
-- object. The world's environment, `Line`, holds the object, the datagrams handed to `send`, and the
-- receives that asio has not answered yet.
use simple_network.Base.{
  ℕ, ◌+◌, ◌-◌, ◌%◌, ◌^◌, Bool, false, Option, none, some, List, [], ◌∷◌, ◌++◌, ltb, ◌==◌,
  if◌then◌else◌, length, take, word_size, of_bytes, Bytes, Run, ok, fault, ◌>>=◌, store,
}
use simple_network.Buffer.Circle.{get_continguious_space, written}
use simple_network.Connection.{World, Hooks, on_close, on_read, with_send}
use simple_network.Kcp.{Ikcp, create_kcp, do_write}

pub record Line (K E : Type 0) : Type 0 where
  pub kcp : Option K
  pub datagrams : List Bytes
  pub reads : ℕ
  pub is_open : Bool
  pub app : E

unfoldable pub make_line : {K E : Type 0} → Option K → E → Line K E
make_line kcp app = record { kcp = kcp; datagrams = []; reads = 0; is_open = false; app = app }

module _ {K E : Type 0} where
  abbrev pub with_line : World (Line K E) → Line K E → World (Line K E)
  with_line w l = record w { out = record w.out { env = l } }

  abbrev pub with_kcp : World (Line K E) → Option K → World (Line K E)
  with_kcp w kcp = with_line w (record w.out.env { kcp = kcp })

  unfoldable pub do_read : World (Line K E) → World (Line K E)
  do_read w = with_line w (record w.out.env { reads = w.out.env.reads + 1 })

module _ {K E : Type 0} (i : Ikcp K) (h : Hooks (Line K E)) where
  -- `close` tells the connection first, and then releases the kcp object.
  unfoldable pub close : World (Line K E) → Run (World (Line K E))
  close w = do
    w' ← on_close h (with_line w (record w.out.env { is_open = false }))
    ok (with_kcp w' none)

  -- `do_write` on the world.
  unfoldable pub write_kcp : ℕ → World (Line K E) → Run (World (Line K E))
  write_kcp fuel w = do
    (kcp, c) ← do_write i fuel w.out.env.kcp w.out.send_buff
    ok (with_send (with_kcp w kcp) c)

  -- `output`: kcp hands a datagram to the socket; `error` says for which datagrams `send` fails.
  unfoldable pub output : (Bytes → Bool) → Bytes → World (Line K E) → Run (World (Line K E))
  output error bytes w =
      let l = w.out.env in
      let w' = with_line w (record l { datagrams = l.datagrams ++ (bytes ∷ []) }) in
      if error bytes then close w' else ok w'

  unfoldable pub output_all :
      (Bytes → Bool) → List Bytes → World (Line K E) → Run (World (Line K E))
  output_all error [] w = ok w
  output_all error (bytes ∷ rest) w = do w' ← output error bytes w; output_all error rest w'

  -- The second half of `update`: what kcp has received goes into the receive buffer. `ikcp_recv` of a
  -- null pointer is a fault.
  unfoldable pub receive : ℕ → ℕ → Option K → World (Line K E) → Run (World (Line K E))
  receive fuel rounds none w = fault
  receive fuel rounds (some k) w = do
    (space, c) ← get_continguious_space fuel w.recv_buff
    let (bytes, k') = i.recv k (space % 2 ^ 32)
    let w' = with_kcp w (some k')
    mem ← store c.block.mem c.tail bytes
    let c' = record c { block = record c.block { mem = mem } }
    if ltb 0 (length bytes)
        then on_read h fuel rounds (record w' { recv_buff = written c' (length bytes) })
        else ok (record w' { recv_buff = c' })

  -- `update`, when there is a kcp object.
  unfoldable pub update_kcp :
      ℕ → ℕ → (Bytes → Bool) → ℕ → Option K → World (Line K E) → Run (World (Line K E))
  update_kcp fuel rounds error current none w = ok w
  update_kcp fuel rounds error current (some k) w = do
    let (k', datagrams) = i.update k current
    w' ← output_all error datagrams (with_kcp w (some k'))
    receive fuel rounds w'.out.env.kcp w'

  unfoldable pub update : ℕ → ℕ → (Bytes → Bool) → ℕ → World (Line K E) → Run (World (Line K E))
  update fuel rounds error current w = update_kcp fuel rounds error current w.out.env.kcp w

  unfoldable pub open_line : ℕ → World (Line K E) → Run (World (Line K E))
  open_line fuel w = write_kcp fuel (do_read w)

  -- A kcp object comes into being with the first datagram that has a conversation.
  unfoldable pub ensure_kcp : ℕ → ℕ → Option K → World (Line K E) → Run (World (Line K E))
  ensure_kcp fuel conv none w = write_kcp fuel (with_kcp w (some (create_kcp i conv)))
  ensure_kcp fuel conv (some k) w = ok w

  unfoldable pub input_kcp : Option K → Bytes → World (Line K E) → Run (World (Line K E))
  input_kcp none bytes w = fault
  input_kcp (some k) bytes w = ok (with_kcp w (some (i.input k bytes)))

  -- The handler of `async_receive`: `buffer` is what `buffer_` holds, of which `count` bytes have come.
  -- For a conversation of 0 it returns, and waits for nothing more.
  unfoldable pub on_receive : ℕ → Bool → Bytes → ℕ → World (Line K E) → Run (World (Line K E))
  on_receive fuel error buffer count w = do
    let w₀ = with_line w (record w.out.env { reads = w.out.env.reads - 1 })
    if error then close w₀ else do
      let conv = of_bytes (take word_size buffer)
      if conv == 0 then ok w₀ else do
        w₁ ← ensure_kcp fuel conv w₀.out.env.kcp w₀
        w₂ ← input_kcp w₁.out.env.kcp (take count buffer) w₁
        ok (do_read w₂)

-- The functions that a connection calls: the application's, and the virtual ones of this socket.
unfoldable pub socket : {K E : Type 0} → Ikcp K → ℕ → Hooks (Line K E) → Hooks (Line K E)
socket i fuel app = record app {
  open_socket = open_line i app fuel;
  close_socket = close i app;
  do_write = write_kcp i app fuel;
}
