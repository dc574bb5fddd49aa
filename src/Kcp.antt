-- ===== src/Kcp.antt =====
-- lib/asio_reactor/kcp: the conversations of acceptor.h and the socket's operations on its send buffer
-- and its kcp object (socket.h). What the functions of kcp do is a parameter, `Ikcp`.
pub mod Conv
pub mod Sending
pub mod Socket
pub mod Acceptor
pub mod Hubs
pub mod Session
pub mod Walking
pub mod Receiving
pub mod Updating
pub mod Starting
pub mod Connector
mod Tests
mod Sockets
mod Answers
mod Walks
use simple_network.Base.{
  among, ℕ, zero, suc, ◌+◌, ◌%◌, ◌^◌, Bool, true, false, List, [], ◌∷◌, ◌++◌, ltb, ◌==◌,
  if◌then◌else◌, Bytes, Run, Option, none, some, ok, out_of_fuel, ◌>>=◌, load,
}
use simple_network.Buffer.Circle.{Circle, get_count, get_continguious_count, remove}

-- The functions of kcp that the sources call, on kcp objects `K`. `update` also gives the datagrams that
-- it hands to the object's `output`, `recv` the bytes that it copies out, none where it has none.
pub record Ikcp (K : Type 0) : Type 0 where
  pub create : ℕ → K
  pub wndsize : K → ℕ → ℕ → K
  pub nodelay : K → ℕ → ℕ → ℕ → ℕ → K
  pub send : K → Bytes → K
  pub input : K → Bytes → K
  pub update : K → ℕ → K × List Bytes
  pub recv : K → ℕ → Bytes × K

-- `ikcp_create` and the two calls behind it, in acceptor.h and in socket.h.
unfoldable pub create_kcp : {K : Type 0} → Ikcp K → ℕ → K
create_kcp i conv = i.nodelay (i.wndsize (i.create conv) 128 128) 0 10 0 0

-- `set_kcp` keeps an object that is there.
unfoldable pub set_kcp : {K : Type 0} → Option K → Option K → Option K
set_kcp none kcp = kcp
set_kcp (some k) kcp = some k

-- `do_write` hands each contiguous piece of the send buffer to `ikcp_send`.
unfoldable pub do_write : {K : Type 0} → Ikcp K → ℕ → Option K → Circle → Run (Option K × Circle)
do_write i zero k c = out_of_fuel
do_write i (suc fuel) none c = ok (none, c)
do_write i (suc fuel) (some k) c =
    if ltb 0 (get_count c)
    then (do
      let count = get_continguious_count c
      bytes ← load c.block.mem c.head count
      do_write i fuel (some (i.send k bytes)) (remove c count))
    else ok (some k, c)

-- `conv = ++conv ? conv : 1` on a `uint32`.
unfoldable pub next_conv : ℕ → ℕ
next_conv conv = let n = (conv + 1) % 2 ^ 32 in if n == 0 then 1 else n

-- `get_conv`: the static counter after it is the conversation that it returns; `convs` are the keys of
-- the map.
unfoldable pub get_conv : ℕ → List ℕ → ℕ → Run ℕ
get_conv zero convs conv = out_of_fuel
get_conv (suc fuel) convs conv =
    let n = next_conv conv in
    let again = get_conv fuel convs n in if among n convs then again else ok n
