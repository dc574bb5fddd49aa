-- ===== src/Tcp.antt =====
-- lib/asio_reactor/tcp/socket.h, acceptor.h and connector.h: a connection's socket over asio. What asio
-- answers to the calls that wait, send and receive is a parameter; the world's environment, `Link`,
-- holds the socket's flag, the waits that asio still owes a call, and what has been sent.
pub mod Sending
pub mod Receiving
pub mod Session
pub mod Lifecycle
pub mod Reconnecting
pub mod RoundTrip
pub mod Closing
pub mod Acceptor
pub mod Accepting
pub mod Connector
mod Tests
mod Peers
mod Sessions
mod Lives
use simple_network.Base.{
  ℕ, zero, suc, ◌+◌, ◌-◌, ◌%◌, ◌^◌, min, Bool, true, false, List, [], ◌∷◌, ◌++◌, ltb, leb, ◌==◌,
  if◌then◌else◌, length, take, Bytes, Run, ok, err, out_of_fuel, ◌>>=◌, load, store,
}
use simple_network.Buffer.Circle.{
  Circle, get_count, get_continguious_count, get_continguious_space, remove, reset, written,
}
use simple_network.Connection.{
  World, Outside, Hooks, with_send, with_state, on_close, on_read, become_connected, disconnect,
  start_connecting,
}

-- What an `error_code` says: nothing, `would_block`, or another error.
pub data ErrorCode : Type 0 where
  success : ErrorCode
  would_block : ErrorCode
  failed : ErrorCode

-- `writes` and `reads` count the `async_wait`s that asio has not answered yet, `sent` is all that
-- `send` has taken.
pub record Link (E : Type 0) : Type 0 where
  pub sending : Bool
  pub writes : ℕ
  pub reads : ℕ
  pub is_open : Bool
  pub sent : Bytes
  pub app : E

-- The answer to a `send`: the peer has room for so many bytes, of which `send` takes what it is given.
pub record Reply : Type 0 where
  pub room : ℕ
  pub code : ErrorCode

-- The answer to a `receive`: one byte or more have come; nothing is there yet; or the connection has
-- failed or ended. Only the first is without an error, and only then the count is not 0.
pub data Arrival : Type 0 where
  came : ℕ → Bytes → Arrival
  nothing_yet : Arrival
  broken : Arrival

-- What `receive` into so much space returns.
abbrev pub received : ℕ → Arrival → Bytes × ErrorCode
received size (came byte bytes) = (take size (byte ∷ bytes), success)
received size nothing_yet = ([], would_block)
received size broken = ([], failed)

-- `state_` of a new socket is 0.
unfoldable pub make_link : {E : Type 0} → E → Link E
make_link app = record {
  sending = false;
  writes = 0;
  reads = 0;
  is_open = false;
  sent = [];
  app = app;
}

module _ {E : Type 0} where
  abbrev pub with_link : World (Link E) → Link E → World (Link E)
  with_link w l = record w { out = record w.out { env = l } }

  -- The start of sending: one wait at a time.
  unfoldable pub do_write : World (Link E) → World (Link E)
  do_write w =
      let l = w.out.env in
      if l.sending
      then w
      else if ltb 0 (get_count w.out.send_buff)
      then with_link w (record l { sending = true; writes = l.writes + 1 })
      else w

  unfoldable pub do_read : World (Link E) → World (Link E)
  do_read w = with_link w (record w.out.env { reads = w.out.env.reads + 1 })

  unfoldable pub open_link : World (Link E) → World (Link E)
  open_link w = do_write (do_read w)

  -- The socket's own part of `close`.
  abbrev pub closed : World (Link E) → World (Link E)
  closed w = record {
    recv_buff = reset w.recv_buff;
    out = record w.out {
      send_buff = reset w.out.send_buff;
      env = record w.out.env { sending = false; is_open = false };
    };
  }

  -- What one `send` leaves.
  unfoldable pub transmit : World (Link E) → ℕ → Run (World (Link E))
  transmit w room = do
    let c = w.out.send_buff
    bytes ← load c.block.mem c.head (get_continguious_count c)
    let count = min room (length bytes)
    let l = w.out.env
    ok (
        if ltb 0 count
        then (with_send (with_link w (record l { sent = l.sent ++ take count bytes }))
            (remove c count))
        else w)

module _ {E : Type 0} (h : Hooks (Link E)) where
  -- `close` ends with `io_->on_close()`.
  unfoldable pub close : World (Link E) → Run (World (Link E))
  close w = on_close h (closed w)

  -- The loop over `send`, one round for each answer; the flag says whether the socket was closed.
  unfoldable pub send_loop : List Reply → World (Link E) → Run (Bool × World (Link E))
  send_loop [] w = out_of_fuel
  send_loop (r ∷ rs) w = do
    w' ← transmit w r.room
    elim r.code [
      | success ↦ if ltb 0 (get_count w'.out.send_buff) then send_loop rs w' else ok (false, w')
      | would_block ↦ ok (false, w')
      | failed ↦ (do w'' ← close w'; ok (true, w''))
    ]

  -- The handler of the wait for writing.
  unfoldable pub on_writable : Bool → List Reply → World (Link E) → Run (World (Link E))
  on_writable error rs w = do
    let l = w.out.env
    let w₀ = with_link w (record l { writes = l.writes - 1 })
    if error then close w₀ else do
      (is_closed, w') ← send_loop rs w₀
      if is_closed
          then ok w'
          else ok (do_write (with_link w' (record w'.out.env { sending = false })))

  -- The loop over `receive`. `fuel` and `rounds` are for the buffer and for `on_read`.
  unfoldable pub receive_loop : ℕ → ℕ → List Arrival → World (Link E) → Run (Bool × World (Link E))
  receive_loop fuel rounds [] w = out_of_fuel
  receive_loop fuel rounds (a ∷ arrivals) w = do
    (space, c) ← get_continguious_space fuel w.recv_buff
    let size = space % 2 ^ 32
    if size == 0 then ok (false, record w { recv_buff = c }) else do
      let (bytes, code) = received size a
      mem ← store c.block.mem c.tail bytes
      let c' = record c { block = record c.block { mem = mem } }
      w' ←
          if ltb 0 (length bytes)
          then on_read h fuel rounds (record w { recv_buff = written c' (length bytes) })
          else ok (record w { recv_buff = c' })
      elim code [
        | success ↦ receive_loop fuel rounds arrivals w'
        | would_block ↦ ok (false, w')
        | failed ↦ (do w'' ← close w'; ok (true, w''))
      ]

  -- The handler of the wait for reading, which waits again.
  unfoldable pub on_readable : ℕ → ℕ → Bool → List Arrival → World (Link E) → Run (World (Link E))
  on_readable fuel rounds error arrivals w = do
    let l = w.out.env
    let w₀ = with_link w (record l { reads = l.reads - 1 })
    if error then close w₀ else do
      (is_closed, w') ← receive_loop fuel rounds arrivals w₀
      if is_closed then ok w' else ok (do_read w')

  -- `connector::connect`: the old socket is closed, the state set, and asio asked to connect, which
  -- opens the socket again.
  unfoldable pub connect : World (Link E) → Run (World (Link E))
  connect w = do
    w' ← close w
    ok (with_link (start_connecting w') (record w'.out.env { is_open = true }))

  -- Its handler.
  unfoldable pub on_connect : Bool → World (Link E) → Run (World (Link E))
  on_connect error w = if error then disconnect h w else become_connected h w

-- The functions that a connection calls: the application's, and the virtual ones of this socket.
unfoldable pub socket : {E : Type 0} → Hooks (Link E) → Hooks (Link E)
socket app = record app {
  open_socket = λ w. ok (open_link w);
  close_socket = close app;
  do_write = λ w. ok (do_write w);
}
