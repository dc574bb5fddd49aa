-- ===== src/Programs/Server.antt =====
-- src/server.cc: a connection that sends back the number of each packet, and sends a 1 one second after
-- it is connected.
pub mod Echo
pub mod Serving
pub mod Starting
use simple_network.Base.{
  ℕ, some, Bool, false, List, [], ◌∷◌, ◌++◌, to_bytes, word_size, Bytes, Run, ok, ◌>>=◌,
}
use simple_network.Packet.{Reader, extract}
use simple_network.Connection.{World, Hooks, become_connected}
use simple_network.Kcp.{Ikcp}
use simple_network.Kcp.Socket.{make_line, Line, with_line, socket}
use simple_network.Timer.{Timer, delay}
use simple_network.Timer
use simple_network.Buffer
use simple_network.Connection
use simple_network.Kcp.Acceptor.{Hub, listen}
use simple_network.Kcp.Acceptor
use simple_network.Mgr.{Mgr, run, start, new_timer}
use simple_network.Programs.{send_value}

-- The connection's timer, and the numbers printed.
pub record Session : Type 0 where
  pub timer : Timer
  pub printed : List Bytes

abbrev pub with_session : {K : Type 0} → World (Line K Session) → Session → World (Line K Session)
with_session w s = with_line w (record w.out.env { app = s })

unfoldable pub on_connected : {K : Type 0} → World (Line K Session) → Run (World (Line K Session))
on_connected w =
    let s = w.out.env.app in ok (with_session w (record s { timer = delay 1000 false s.timer }))

-- The functions of the application that a connection calls in order to send: `on_recv` is not one.
abbrev pub session : {K : Type 0} → Hooks (Line K Session)
session = record {
  on_connected = on_connected;
  on_disconnected = ok;
  on_recv = λ w r. ok w;
  open_socket = ok;
  close_socket = ok;
  do_write = ok;
}

unfoldable pub sender : {K : Type 0} → Ikcp K → ℕ → Hooks (Line K Session)
sender i fuel = socket i fuel session

unfoldable pub on_recv :
    {K : Type 0} → Ikcp K → ℕ → World (Line K Session) → Reader → Run (World (Line K Session))
on_recv i fuel w packet = do
  (number, _, c) ← extract fuel w.recv_buff packet word_size
  let s = w.out.env.app
  send_value (sender i fuel) fuel
      (with_session (record w { recv_buff = c })
        (record s { printed = s.printed ++ (number ∷ []) }))
      number

unfoldable pub on_time :
    {K : Type 0} → Ikcp K → ℕ → World (Line K Session) → Run (World (Line K Session))
on_time i fuel w = send_value (sender i fuel) fuel w (to_bytes 1)

-- The whole connection.
unfoldable pub server : {K : Type 0} → Ikcp K → ℕ → Hooks (Line K Session)
server i fuel = record (sender i fuel) { on_recv = on_recv i fuel }

-- `on_connected` of the acceptor, for a socket with its kcp object.
unfoldable pub on_accepted : {K S : Type 0} → Ikcp K → ℕ → K → Mgr S → Run (World (Line K Session))
on_accepted i fuel kcp m = become_connected (server i fuel) (
    Connection.make Buffer.make Buffer.make
      (make_line (some kcp) (record { timer = new_timer m; printed = [] })))

-- `main` to the call of `io_service_.run`; `self` is the acceptor's timer.
unfoldable pub main : {S : Type 0} → ℕ → Mgr S → Run (Hub × Mgr S)
main self m = do
  (hub, m₁) ← start (Acceptor.make self) (λ new m'. ok (listen new, m')) m
  ok (hub, run m₁)
