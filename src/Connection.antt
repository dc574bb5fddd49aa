-- ===== src/Connection.antt =====
-- `class connection` of lib/simple/reactor/connection.h and the members of `class socket`
-- (lib/simple/reactor/socket.h) that it works on. What the virtual functions of the socket and of the
-- application do is a parameter, `Hooks`: each may change the whole world.
pub mod First
pub mod Reading
pub mod Sending
pub mod Forwarding
pub mod Defects
mod Tests
use simple_network.Base.{
  ℕ, zero, suc, Bool, true, false, none, List, ltb, ◌==◌, if◌then◌else◌, add32, word_size, of_bytes,
  Run, ok, out_of_fuel, ◌>>=◌,
}
use simple_network.Event.{Io}
use simple_network.Buffer.Circle.{Circle, get_count, remove, read}
use simple_network.Packet.{
  Reader, Writer, open_reader, open_writer, insert_reader, flush, close_writer,
}

pub data State : Type 0 where
  disconnected : State
  connecting : State
  connected : State

-- `state_` of the connection, `send_buff_` of its socket, and all else that the hooks work on.
pub record Outside (E : Type 0) : Type 0 where
  pub state : State
  pub send_buff : Circle
  pub env : E

-- The same with `recv_buff_`.
pub record World (E : Type 0) : Type 0 where
  pub recv_buff : Circle
  pub out : Outside E

pub record Hooks (E : Type 0) : Type 0 where
  pub on_connected : World E → Run (World E)
  pub on_disconnected : World E → Run (World E)
  pub on_recv : World E → Reader → Run (World E)
  pub open_socket : World E → Run (World E)
  pub close_socket : World E → Run (World E)
  pub do_write : World E → Run (World E)

-- The virtual functions of `class socket` itself: `open` and `close` do nothing.
unfoldable pub base_socket : {E : Type 0} → (World E → Run (World E)) → Hooks E → Hooks E
base_socket do_write app = record app { open_socket = ok; close_socket = ok; do_write = do_write }

abbrev pub is_connected : State → Bool
is_connected connected = true
is_connected _ = false

abbrev pub is_connecting : State → Bool
is_connecting connecting = true
is_connecting _ = false

abbrev pub is_disconnected : State → Bool
is_disconnected disconnected = true
is_disconnected _ = false

module _ {E : Type 0} where
  abbrev pub with_state : World E → State → World E
  with_state w s = record w { out = record w.out { state = s } }

  abbrev pub with_send : World E → Circle → World E
  with_send w c = record w { out = record w.out { send_buff = c } }

  -- A connection that is new; the buffers are those of its socket.
  unfoldable pub make : Circle → Circle → E → World E
  make recv_buff send_buff env = record {
    recv_buff = recv_buff;
    out = record { state = disconnected; send_buff = send_buff; env = env };
  }

  unfoldable pub on_write : World E → World E
  on_write w = w

  unfoldable pub start_connecting : World E → World E
  start_connecting w = with_state w connecting

  unfoldable pub get_packet_writer : ℕ → World E → Run (Writer × World E)
  get_packet_writer fuel w = do
    (writer, c) ← open_writer fuel w.out.send_buff
    ok (writer, with_send w c)

module _ {E : Type 0} (h : Hooks E) where
  unfoldable pub become_connected : World E → Run (World E)
  become_connected w =
      if is_connected w.out.state
      then ok w
      else (do w' ← h.on_connected (with_state w connected); h.open_socket w')

  unfoldable pub disconnect : World E → Run (World E)
  disconnect w =
      if is_disconnected w.out.state
      then ok w
      else (do w' ← h.close_socket (with_state w disconnected); h.on_disconnected w')

  unfoldable pub on_close : World E → Run (World E)
  on_close w =
      if is_connected w.out.state then h.on_disconnected (with_state w disconnected) else ok w

  -- `send` of a writer; the flag says whether its buffer is the socket's send buffer.
  unfoldable pub send_writer : ℕ → Bool → World E → Writer → Run (World E)
  send_writer fuel same w writer =
      if same
      then (do (_, c) ← flush fuel w.out.send_buff writer none; h.do_write (with_send w c))
      else ok w

  -- `send` of a reader over the receive buffer: its packet goes out as a packet of its own, and the
  -- local writer is destroyed.
  unfoldable pub send_reader : ℕ → World E → Reader → Run (World E)
  send_reader fuel w reader = do
    (writer, c) ← open_writer fuel w.out.send_buff
    (writer', c') ← insert_reader fuel c writer w.recv_buff reader
    w' ← send_writer fuel true (with_send w c') writer'
    c'' ← close_writer fuel w'.out.send_buff writer'
    ok (with_send w' c'')

  -- The loop of `on_read`: a packet that is there in full goes to `on_recv` and is removed. `fuel` is
  -- for the buffer, `rounds` for the loop.
  unfoldable pub on_read : ℕ → ℕ → World E → Run (World E)
  on_read fuel zero w = out_of_fuel
  on_read fuel (suc rounds) w = if ltb (get_count w.recv_buff) word_size then ok w else (do
    (bytes, c) ← read fuel w.recv_buff word_size 0 true
    let size = add32 (of_bytes bytes) word_size
    if ltb (get_count c) size then ok (record w { recv_buff = c }) else (do
      (reader, c') ← open_reader fuel c
      w' ← h.on_recv (record w { recv_buff = c' }) reader
      let w'' = record w' { recv_buff = remove w'.recv_buff size }
      if get_count w''.recv_buff == 0 then ok w'' else on_read fuel rounds w''))

-- A connection as its socket sees it: `io_` of the socket.
unfoldable pub as_io : {E : Type 0} → Hooks E → ℕ → ℕ → Io (World E)
as_io h fuel rounds = record {
  on_read = on_read h fuel rounds;
  on_write = λ w. ok (on_write w);
  on_close = on_close h;
}
