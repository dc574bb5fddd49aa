-- ===== src/Tcp/Connector.antt =====
-- `class connector` of lib/asio_reactor/tcp/connector.h: a connection with the endpoint that it connects
-- to, which is a number.
use simple_network.Base.{ℕ, Run, ok, ◌>>=◌}
use simple_network.Buffer
use simple_network.Connection.{World}
use simple_network.Connection
use simple_network.Tcp.{Link, make_link, connect}

pub record Connector (E : Type 0) : Type 0 where
  pub remote_endpoint : ℕ
  pub world : World (Link E)

-- A new connector has a new socket, with its two buffers, and no endpoint.
unfoldable pub make : {E : Type 0} → E → Connector E
make app = record {
  remote_endpoint = 0;
  world = Connection.make Buffer.make Buffer.make (make_link app);
}

unfoldable pub connect_to :
    {E : Type 0} → Connection.Hooks (Link E) → ℕ → Connector E → Run (Connector E)
connect_to h endpoint k = do
  w ← connect h k.world
  ok (record { remote_endpoint = endpoint; world = w })
