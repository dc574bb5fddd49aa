-- ===== src/Programs/Client.antt =====
-- src/client.cc: a kcp connector that connects again whenever the connection has gone, and sends its
-- counter at each time of the manager.
pub mod Counting
pub mod Answered
use simple_network.Base.{
  false, ℕ, ◌+◌, ◌%◌, ◌^◌, Bool, to_bytes, if◌then◌else◌, Bytes, Run, ok, ◌>>=◌,
}
use simple_network.Connection.{World, Hooks, is_connected, is_disconnected}
use simple_network.Kcp.{Ikcp}
use simple_network.Kcp.Socket.{Line, with_line, socket}
use simple_network.Kcp.Connector.{connect}
use simple_network.Kcp.Connector
use simple_network.Timer.{Timer, delay}
use simple_network.Timer
use simple_network.Mgr.{Mgr, run, start, new_timer}
use simple_network.Programs.{send_value}

-- `on_recv`, `on_connected` and `on_disconnected` only print. The application's state is `i`.
unfoldable pub client : {K : Type 0} → Ikcp K → ℕ → Hooks (Line K ℕ)
client i fuel = socket i fuel (record {
  on_connected = ok;
  on_disconnected = ok;
  on_recv = λ w r. ok w;
  open_socket = ok;
  close_socket = ok;
  do_write = ok;
})

-- `i++` on an `int` whose four bytes are kept.
unfoldable pub send_counter : {K : Type 0} → Ikcp K → ℕ → World (Line K ℕ) → Run (World (Line K ℕ))
send_counter i fuel w =
    let l = w.out.env in
    send_value (client i fuel) fuel (with_line w (record l { app = (l.app + 1) % 2 ^ 32 }))
      (to_bytes l.app)

-- `refused` and `error` are what asio answers if the client connects, `lost` for which datagrams of kcp
-- `send` fails.
unfoldable pub on_time :
    {K : Type 0}
    → Ikcp K
    → ℕ
    → ℕ
    → Bool
    → Bool
    → (Bytes → Bool)
    → ℕ
    → World (Line K ℕ)
    → Run (World (Line K ℕ))
on_time i fuel rounds refused error lost current w = do
  w' ← Connector.on_time i (client i fuel) fuel rounds lost current w
  if is_disconnected w'.out.state
      then connect i (client i fuel) refused error w'
      else if is_connected w'.out.state
      then send_counter i fuel w'
      else ok w'

-- `class timer`, which is never made: a tenth of a second, once, and nothing to do then.
unfoldable pub make_timer : {S : Type 0} → Mgr S → Timer
make_timer m = delay 100 false (new_timer m)

-- `main` to the call of `io_service_.run`: `self` is the connector's timer, and 1 its endpoint.
unfoldable pub main :
    {K S : Type 0}
    → Ikcp K
    → ℕ
    → (ℕ → Bool)
    → (ℕ → Bool)
    → ℕ
    → Mgr S
    → Run (Connector.Connector K ℕ × Mgr S)
main i fuel refused error self m = do
  (connector, m₁) ←
      start (Connector.make self 0)
        (λ new m'. (do
          connector ← Connector.connect_to i (client i fuel) refused error 1 new
          ok (connector, m')))
        m
  ok (connector, run m₁)
