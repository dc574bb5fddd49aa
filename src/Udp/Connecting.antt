-- ===== src/Udp/Connecting.antt =====
-- What `connect` of udp/connector.h leads to.
use simple_network.Base.{◌≡◌, ap, true, false, ok, ◌>>=◌, if◌then◌else◌}
use simple_network.Connection.{
  World, Hooks, connected, disconnected, is_connected, with_state, on_close, become_connected,
  start_connecting, disconnect,
}
use simple_network.Udp.{Port, with_port, close}
use simple_network.Udp.Connector.{connect, say_hello}

-- A socket that is set up again.
abbrev pub reopened : {E : Type 0} → World (Port E) → World (Port E)
reopened w = with_port w (record w.out.env { is_open = true })

-- To close a socket without a connection tells nobody.
close-down :
    {E : Type 0} (h : Hooks (Port E)) (w : World (Port E))
    → w.out.state ≡ disconnected
    → close h w ≡ ok (with_port w (record w.out.env { is_open = false }))
unfolding close on_close
close-down {E} h w down =
    ap (λ s. if is_connected s then h.on_disconnected (with_state shut disconnected) else ok shut)
      down
  where
    shut : World (Port E)
    shut = with_port w (record w.out.env { is_open = false })

-- From a connection that is down, `connect` that succeeds has sent four zero bytes, tells the
-- application of the connection, and opens the socket; one that is refused or cannot send closes the
-- socket and tells it of the end, with the state DISCONNECTED.
pub connect-outcome :
    {E : Type 0} (h : Hooks (Port E)) (w : World (Port E))
    → w.out.state ≡ disconnected
    → (connect h false false w
        ≡ (h.on_connected (with_state (say_hello (reopened w)) connected) >>= h.open_socket))
      × (connect h true false w
          ≡ (h.close_socket (with_state (reopened w) disconnected) >>= h.on_disconnected))
      × (connect h false true w ≡ (
          h.close_socket (with_state (say_hello (reopened w)) disconnected) >>= h.on_disconnected))
unfolding connect become_connected start_connecting disconnect
connect-outcome {E} h w down =
    (rw (close-down h w down), rw (close-down h w down), rw (close-down h w down))
