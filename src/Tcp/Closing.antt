-- ===== src/Tcp/Closing.antt =====
-- The end of a TCP connection: `socket::close` with `connection::disconnect` and `on_close`.
use simple_network.Base.{◌≡◌, refl, ok, Run, [], ap, ◌∙◌, ◌>>=◌, if◌then◌else◌, false}
use simple_network.Buffer.Circle.Valid.{IsValid, contents}
use simple_network.Buffer.Circle.Moves.{reset-IsValid}
use simple_network.Connection.{
  World, Hooks, with_state, connected, disconnected, State, on_close, disconnect, is_connected,
  is_disconnected,
}
use simple_network.Tcp.{Link, closed, close}

-- A connection that has ended: nothing is held, nothing is out to be sent, and the socket is closed.
pub record IsOver {E : Type 0} (w : World (Link E)) : Type 0 where
  pub down : w.out.state ≡ disconnected
  pub no_input : contents w.recv_buff ≡ []
  pub no_output : contents w.out.send_buff ≡ []
  pub idle : w.out.env.sending ≡ false
  pub shut : w.out.env.is_open ≡ false

module _ {E : Type 0} (h : Hooks (Link E)) (w : World (Link E)) where
  -- `close` and `disconnect`, as the state decides.
  abbrev told : State → Run (World (Link E))
  told s =
      if is_connected s
      then h.on_disconnected (with_state (closed w) disconnected)
      else ok (closed w)

  abbrev ended : State → Run (World (Link E))
  ended s =
      if is_disconnected s
      then ok w
      else (h.close_socket (with_state w disconnected) >>= h.on_disconnected)

  close-eq : (s : State) → w.out.state ≡ s → close h w ≡ told s
  unfolding close on_close
  close-eq s e = ap told e

  disconnect-eq : (s : State) → w.out.state ≡ s → disconnect h w ≡ ended s
  unfolding disconnect
  disconnect-eq s e = ap ended e

  close-down : w.out.state ≡ disconnected → close h w ≡ ok (closed w)
  close-down e = close-eq disconnected e

-- When the socket of a connection closes, and when the application disconnects it, the application is
-- told of the end once, with empty buffers, the state DISCONNECTED, no sending and a closed socket; to
-- close or to disconnect once more tells it nothing. The hook that closes the socket is the socket's
-- `close`, and the application leaves the state as it is when it is told.
pub close-once :
    {E : Type 0} (h : Hooks (Link E)) (tell : World (Link E) → World (Link E)) (w : World (Link E))
    → ((v : World (Link E)) → h.close_socket v ≡ close h v)
    → ((v : World (Link E)) → h.on_disconnected v ≡ ok (tell v))
    → ((v : World (Link E)) → (tell v).out.state ≡ v.out.state)
    → IsValid w.recv_buff
    → IsValid w.out.send_buff
    → w.out.state ≡ connected
    → (v : World (Link E)) × IsOver v
      × (close h w ≡ ok (tell v))
      × (disconnect h w ≡ ok (tell v))
      × (close h (tell v) ≡ ok (closed (tell v)))
      × (disconnect h (tell v) ≡ ok (tell v))
close-once {E} h tell w socket tells keeps v v' up = (
  end,
  record {
    down = refl;
    no_input = (reset-IsValid v).1;
    no_output = (reset-IsValid v').1;
    idle = refl;
    shut = refl;
  },
  close-eq h w connected up ∙ tells end,
  disconnect-eq h w connected up
      ∙ ap (λ r. r >>= h.on_disconnected)
          (socket (with_state w disconnected) ∙ close-down h (with_state w disconnected) refl)
      ∙ tells end,
  close-down h (tell end) (keeps end),
  disconnect-eq h (tell end) disconnected (keeps end),
)
  where
    end : World (Link E)
    end = with_state (closed w) disconnected
