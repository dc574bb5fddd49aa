-- ===== src/Tcp/Reconnecting.antt =====
-- A reconnect while a handler of the old socket is still out.
use simple_network.Base.{ℕ, ◌-◌, ◌≡◌, refl, true, false, [], ok}
use simple_network.Buffer.Circle.{Circle}
use simple_network.Connection.{
  World, Hooks, connecting, disconnected, with_state, on_close, disconnect, start_connecting,
}
use simple_network.Tcp.{Link, socket, closed, close, connect, on_connect, on_readable, with_link}

-- A connection that has ended, with some waits that asio has not answered yet.
abbrev pub ended : {E : Type 0} → Circle → Circle → Link E → World (Link E)
ended recv send l = record {
  recv_buff = recv;
  out = record { state = disconnected; send_buff = send; env = l };
}

-- The socket that `connect` opens.
abbrev pub opened : {E : Type 0} → World (Link E) → World (Link E)
opened w =
    with_state (with_link (closed w) (record (closed w).out.env { is_open = true })) connecting

-- When a wait for reading of the old socket is answered by its error after `connect` has opened the
-- socket again, the handler closes the new socket, while the state stays CONNECTING. The answer to the
-- connecting is then an error too, and the application is told of the end of a connection that it was
-- never told of.
pub stale-closes :
    {E : Type 0} (app : Hooks (Link E)) (recv send : Circle) (l : Link E) (fuel rounds : ℕ)
    → let w = ended recv send l in
      let w₁ = opened w in
      let w₂ = closed (with_link w₁ (record w₁.out.env { reads = w₁.out.env.reads - 1 })) in
      (connect (socket app) w ≡ ok w₁)
      × (w₁.out.env.is_open ≡ true)
      × (on_readable (socket app) fuel rounds true [] w₁ ≡ ok w₂)
      × (w₂.out.env.is_open ≡ false)
      × (w₂.out.state ≡ connecting)
      × (on_connect (socket app) true w₂
          ≡ app.on_disconnected (closed (with_state w₂ disconnected)))
unfolding connect on_readable on_connect disconnect close on_close start_connecting socket
stale-closes app recv send l fuel rounds = (refl, refl, refl, refl, refl, refl)
