-- ===== src/Kcp/Connector.antt =====
-- `class connector` of lib/asio_reactor/kcp/connector.h: a connection over a kcp socket that connects by
-- an empty conversation, and passes the manager's time on to its socket.
use simple_network.Base.{
  ℕ, none, ok, Bool, true, [], ◌∷◌, ◌++◌, if◌then◌else◌, to_bytes, Bytes, Run, ◌>>=◌,
}
use simple_network.Buffer
use simple_network.Connection
use simple_network.Connection.{World, Hooks, become_connected, start_connecting, disconnect}
use simple_network.Event.{Timed}
use simple_network.Mgr.{Mgr, add, remove}
use simple_network.Kcp.{Ikcp}
use simple_network.Kcp.Socket.{make_line, Line, with_line, close, update}

module _ {K E : Type 0} (i : Ikcp K) (h : Hooks (Line K E)) where
  -- What the socket sends by itself.
  abbrev pub say_hello : World (Line K E) → World (Line K E)
  say_hello w =
      let l = w.out.env in with_line w (record l { datagrams = l.datagrams ++ (to_bytes 0 ∷ []) })

  -- `connect`: `refused` and `error` are what `connect` and `send` of the asio socket answer.
  unfoldable pub connect : Bool → Bool → World (Line K E) → Run (World (Line K E))
  connect refused error w = do
    w₀ ← close i h w
    let w₁ = start_connecting (with_line w₀ (record w₀.out.env { is_open = true }))
    if refused
        then disconnect h w₁
        else (let w₂ = say_hello w₁ in if error then disconnect h w₂ else become_connected h w₂)

  unfoldable pub on_time : ℕ → ℕ → (Bytes → Bool) → ℕ → World (Line K E) → Run (World (Line K E))
  on_time fuel rounds error current w = update i h fuel rounds error current w

-- A connector as the manager sees it; `error` is what `send` answers.
unfoldable pub as_timer :
    {K E : Type 0} → Ikcp K → Hooks (Line K E) → ℕ → ℕ → (Bytes → Bool) → Timed (World (Line K E))
as_timer i h fuel rounds error = record { on_time = on_time i h fuel rounds error }

-- The connection with the endpoint that it connects to.
pub record Connector (K E : Type 0) : Type 0 where
  pub remote_endpoint : ℕ
  pub world : World (Line K E)

-- The constructor and the destructor also change the manager's set of timers; `self` is the connector's
-- timer.
unfoldable pub make : {K E S : Type 0} → ℕ → E → Mgr S → Connector K E × Mgr S
make self app m = (
  record {
    remote_endpoint = 0;
    world = Connection.make Buffer.make Buffer.make (make_line none app);
  },
  add self m,
)

unfoldable pub drop : {S : Type 0} → ℕ → Mgr S → Mgr S
drop self m = remove self m

-- `refused` and `error` are asio's answers for an endpoint.
unfoldable pub connect_to :
    {K E : Type 0}
    → Ikcp K
    → Hooks (Line K E)
    → (ℕ → Bool)
    → (ℕ → Bool)
    → ℕ
    → Connector K E
    → Run (Connector K E)
connect_to i h refused error endpoint k = do
  w ← connect i h (refused endpoint) (error endpoint) k.world
  ok (record { remote_endpoint = endpoint; world = w })
