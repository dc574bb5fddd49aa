-- ===== src/Programs.antt =====
-- The two programs, src/client.cc and src/server.cc: a client that counts, and a server that sends back
-- what it is sent. An `int` is its four bytes.
pub mod Sending
pub mod Client
pub mod Server
pub mod SquareRoot
mod Tests
mod Talks
use simple_network.Base.{ℕ, true, Bytes, Run, ok, ◌>>=◌}
use simple_network.Packet.{insert, close_writer}
use simple_network.Connection.{World, Hooks, with_send, get_packet_writer, send_writer}

-- `auto packet = get_packet_writer(); packet << value; send(packet);`, to the end of the block.
unfoldable pub send_value : {E : Type 0} → Hooks E → ℕ → World E → Bytes → Run (World E)
send_value h fuel w value = do
  (writer, w₁) ← get_packet_writer fuel w
  (writer', c) ← insert fuel w₁.out.send_buff writer value
  w₂ ← send_writer h fuel true (with_send w₁ c) writer'
  c' ← close_writer fuel w₂.out.send_buff writer'
  ok (with_send w₂ c')
