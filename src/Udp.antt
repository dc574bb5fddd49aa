-- ===== src/Udp.antt =====
-- lib/asio_reactor/udp: a socket that sends its buffer as one datagram, and an acceptor that keeps the
-- endpoints that it has accepted. What asio answers is a parameter.
pub mod Sending
pub mod Accepting
pub mod Connector
pub mod Connecting
pub mod Receiving
pub mod RoundTrip
mod Tests
mod Peers
use simple_network.Base.{
  ℕ, zero, suc, ◌+◌, ◌-◌, Bool, true, false, not, List, [], ◌∷◌, ◌++◌, ltb, ◌==◌, if◌then◌else◌,
  length, replicate, sub64, among, erase, Bytes, Run, ok, ◌>>=◌, load, store,
}
use simple_network.Buffer.Circle.{
  Circle, get_count, get_continguious_count, get_continguious_space, remove, reset, written,
}
use simple_network.Connection.{World, Hooks, with_send, on_close, on_read}

-- `datagrams` are those handed to `send`; `reads` counts the `async_receive`s that asio has not
-- answered yet.
pub record Port (E : Type 0) : Type 0 where
  pub datagrams : List Bytes
  pub reads : ℕ
  pub is_open : Bool
  pub app : E

-- `sizeof(buff)`
abbrev pub datagram_size : ℕ
datagram_size = 65536

-- `uint8 buff[65536] = {}`
unfoldable pub stack_buff : Bytes
stack_buff = replicate datagram_size 0

-- The bytes of the send buffer in one piece, through a buffer on the stack where they are in two.
unfoldable pub gather : Circle → Run (Bytes × Circle)
gather c =
    let count = get_count c in
    let continguious_count = get_continguious_count c in
    if count == continguious_count
    then (do bytes ← load c.block.mem c.head count; ok (bytes, c))
    else (do
      front ← load c.block.mem c.head continguious_count
      buff ← store stack_buff 0 front
      let c' = remove c continguious_count
      let rest = get_continguious_count c'
      back ← load c'.block.mem c'.head rest
      buff' ← store buff (sub64 count rest) back
      bytes ← load buff' 0 count
      ok (bytes, c'))

unfoldable pub make_port : {E : Type 0} → E → Port E
make_port app = record { datagrams = []; reads = 0; is_open = false; app = app }

module _ {E : Type 0} where
  abbrev pub with_port : World (Port E) → Port E → World (Port E)
  with_port w p = record w { out = record w.out { env = p } }

module _ {E : Type 0} (h : Hooks (Port E)) where
  unfoldable pub close : World (Port E) → Run (World (Port E))
  close w = on_close h (with_port w (record w.out.env { is_open = false }))

  -- `error` is what `send` answers.
  unfoldable pub do_write : Bool → World (Port E) → Run (World (Port E))
  do_write error w = if get_count w.out.send_buff == 0 then ok w else do
    (bytes, c) ← gather w.out.send_buff
    let p = w.out.env
    let w₀ = with_send (with_port w (record p { datagrams = p.datagrams ++ (bytes ∷ []) })) c
    w' ← if error then close w₀ else ok w₀
    ok (with_send w' (reset w'.out.send_buff))

  -- `async_receive` into the space behind the tail.
  unfoldable pub do_read : ℕ → World (Port E) → Run (World (Port E))
  do_read fuel w = do
    (_, c) ← get_continguious_space fuel w.recv_buff
    let w' = record w { recv_buff = c }
    ok (with_port w' (record w'.out.env { reads = w'.out.env.reads + 1 }))

  -- Its handler, for a datagram; the receive buffer is reset, whatever of it was read.
  unfoldable pub on_receive : ℕ → ℕ → Bool → Bytes → World (Port E) → Run (World (Port E))
  on_receive fuel rounds error bytes w = do
    let w₀ = with_port w (record w.out.env { reads = w.out.env.reads - 1 })
    if error then close w₀ else do
      let c = w₀.recv_buff
      mem ← store c.block.mem c.tail bytes
      let c' = record c { block = record c.block { mem = mem } }
      w' ← on_read h fuel rounds (record w₀ { recv_buff = written c' (length bytes) })
      do_read fuel (record w' { recv_buff = reset w'.recv_buff })

  unfoldable pub open_port : ℕ → Bool → World (Port E) → Run (World (Port E))
  open_port fuel error w = do w' ← do_read fuel w; do_write error w'

-- The functions that a connection calls: the application's, and the virtual ones of this socket. `error`
-- is what `send` answers.
unfoldable pub socket : {E : Type 0} → ℕ → Bool → Hooks (Port E) → Hooks (Port E)
socket fuel error app = record app {
  open_socket = open_port app fuel error;
  close_socket = close app;
  do_write = do_write app error;
}

-- The acceptor: an endpoint, an address with its port, is a number here. `accepts` counts the
-- `async_receive_from`s that asio has not answered yet.
pub record Acceptor : Type 0 where
  pub remote_endpoints : List ℕ
  pub accepts : ℕ

unfoldable pub make : Acceptor
make = record { remote_endpoints = []; accepts = 0 }

unfoldable pub is_accepted : Acceptor → ℕ → Bool
is_accepted a e = among e a.remote_endpoints

-- `acceptor::close`, which the deleter of the socket's endpoint calls.
unfoldable pub close_endpoint : Acceptor → ℕ → Acceptor
close_endpoint a e = record a { remote_endpoints = erase e a.remote_endpoints }

unfoldable pub do_accept : Acceptor → Acceptor
do_accept a = record a { accepts = a.accepts + 1 }

-- The handler of `async_receive_from`; `refused` is what `connect` answers. The flag says whether a new
-- socket goes to `on_connected`.
unfoldable pub on_accept : Bool → Bool → ℕ → Acceptor → Bool × Acceptor
on_accept error refused e a =
    let a₀ = record a { accepts = a.accepts - 1 } in
    let fresh = if is_accepted a₀ e then false else not refused in
    let a' =
      if fresh then record a₀ { remote_endpoints = a₀.remote_endpoints ++ (e ∷ []) } else a₀ in
    if error then (false, a₀) else (fresh, do_accept a')

unfoldable pub listen : Acceptor → Acceptor
listen a = do_accept a
