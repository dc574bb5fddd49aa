-- ===== src/Udp/Connector.antt =====
-- `class connector` of lib/asio_reactor/udp/connector.h: a connection over a UDP socket that connects by
-- sending four zero bytes.
use simple_network.Base.{ℕ, ok, Bool, true, [], ◌∷◌, ◌++◌, if◌then◌else◌, to_bytes, Run, ◌>>=◌}
use simple_network.Buffer
use simple_network.Connection
use simple_network.Connection.{World, Hooks, become_connected, start_connecting, disconnect}
use simple_network.Udp.{make_port, Port, with_port, close}

-- What the connector sends by itself.
abbrev pub say_hello : {E : Type 0} → World (Port E) → World (Port E)
say_hello w =
    let p = w.out.env in with_port w (record p { datagrams = p.datagrams ++ (to_bytes 0 ∷ []) })

module _ {E : Type 0} (h : Hooks (Port E)) where
  -- `connect`: `refused` and `error` are what `connect` and `send` of the asio socket answer.
  unfoldable pub connect : Bool → Bool → World (Port E) → Run (World (Port E))
  connect refused error w = do
    w₀ ← close h w
    let w₁ = start_connecting (with_port w₀ (record w₀.out.env { is_open = true }))
    if refused
        then disconnect h w₁
        else (let w₂ = say_hello w₁ in if error then disconnect h w₂ else become_connected h w₂)

-- The connection with the endpoint that it connects to.
pub record Connector (E : Type 0) : Type 0 where
  pub remote_endpoint : ℕ
  pub world : World (Port E)

unfoldable pub make : {E : Type 0} → E → Connector E
make app = record {
  remote_endpoint = 0;
  world = Connection.make Buffer.make Buffer.make (make_port app);
}

-- `refused` and `error` are asio's answers for an endpoint.
unfoldable pub connect_to :
    {E : Type 0} → Hooks (Port E) → (ℕ → Bool) → (ℕ → Bool) → ℕ → Connector E → Run (Connector E)
connect_to h refused error endpoint k = do
  w ← connect h (refused endpoint) (error endpoint) k.world
  ok (record { remote_endpoint = endpoint; world = w })
