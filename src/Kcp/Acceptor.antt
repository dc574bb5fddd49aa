-- ===== src/Kcp/Acceptor.antt =====
-- `class acceptor` of lib/asio_reactor/kcp/acceptor.h: the map of conversations beside the endpoints of
-- the UDP acceptor. A socket is known by the endpoint that it is connected to.
use simple_network.Base.{
  ℕ, ◌-◌, Bool, true, false, among, fault, Option, none, some, List, [], ◌∷◌, ◌++◌, ◌==◌,
  if◌then◌else◌, Run, ok, ◌>>=◌,
}
use simple_network.Udp.{Acceptor, is_accepted, close_endpoint, do_accept}
use simple_network.Udp
use simple_network.Mgr.{Mgr, add, remove}
use simple_network.Kcp.{get_conv}

pub record Hub : Type 0 where
  pub acceptor : Acceptor
  pub convs : List (ℕ × ℕ)
  pub conv : ℕ

abbrev pub keys : List (ℕ × ℕ) → List ℕ
keys [] = []
keys ((conv, endpoint) ∷ convs) = conv ∷ keys convs

abbrev pub sockets : List (ℕ × ℕ) → List ℕ
sockets [] = []
sockets ((conv, endpoint) ∷ convs) = endpoint ∷ sockets convs

-- `convs_.erase(conv)`
abbrev pub erase_key : ℕ → List (ℕ × ℕ) → List (ℕ × ℕ)
erase_key conv [] = []
erase_key conv ((c, e) ∷ convs) =
    let rest = erase_key conv convs in if c == conv then convs else (c, e) ∷ rest

-- The constructor and the destructor also change the manager's set of timers; `self` is the acceptor's
-- timer.
unfoldable pub make : {S : Type 0} → ℕ → Mgr S → Hub × Mgr S
make self m = (record { acceptor = Udp.make; convs = []; conv = 0 }, add self m)

unfoldable pub drop : {S : Type 0} → ℕ → Mgr S → Mgr S
drop self m = remove self m

-- `listen`: the UDP `listen` has called `do_accept` already.
unfoldable pub listen : Hub → Hub
listen hub = record hub { acceptor = do_accept (do_accept hub.acceptor) }

-- A new conversation for an endpoint.
unfoldable pub add_conv : ℕ → ℕ → Hub → Run (Option ℕ × Hub)
add_conv fuel endpoint hub = do
  conv ← get_conv fuel (keys hub.convs) hub.conv
  let a = hub.acceptor
  ok (
    some conv,
    record {
      acceptor = record a { remote_endpoints = a.remote_endpoints ++ (endpoint ∷ []) };
      convs = hub.convs ++ ((conv, endpoint) ∷ []);
      conv = conv;
    },
  )

-- The handler of `async_receive_from`; `refused` is what `connect` answers. The result is the
-- conversation of the socket that goes to `on_connected`, if there is a new one.
unfoldable pub on_accept : ℕ → Bool → Bool → ℕ → Hub → Run (Option ℕ × Hub)
on_accept fuel error refused endpoint hub =
    let a = hub.acceptor in
    let hub₀ = record hub { acceptor = record a { accepts = a.accepts - 1 } } in
    if error then ok (none, hub₀) else do
      (conv, hub') ←
          if is_accepted hub₀.acceptor endpoint
          then ok (none, hub₀)
          else if refused
          then ok (none, hub₀)
          else add_conv fuel endpoint hub₀
      ok (conv, record hub' { acceptor = do_accept hub'.acceptor })

-- `close`, which the deleter of the socket's endpoint calls.
unfoldable pub close_conv : ℕ → ℕ → Hub → Hub
close_conv conv endpoint hub = record hub {
  acceptor = close_endpoint hub.acceptor endpoint;
  convs = erase_key conv hub.convs;
}

-- The first of the conversations ahead that are in the map: where the iterator points after `it++`.
unfoldable pub next_conv_ahead : List (ℕ × ℕ) → List (ℕ × ℕ) → Option ℕ
next_conv_ahead convs [] = none
next_conv_ahead convs ((conv, endpoint) ∷ rest) =
    let later = next_conv_ahead convs rest in if among conv (keys convs) then some conv else later

-- An iterator to an element that has been erased is a fault when it is used.
unfoldable pub conv_there : Option ℕ → List (ℕ × ℕ) → Bool
conv_there none convs = true
conv_there (some conv) convs = among conv (keys convs)

-- The loop of `on_time` over the sockets ahead, in the state `S` of all sockets and of the map, which
-- `convs_of` gives. `update` is given the socket and the time; it may erase elements of the map, and the
-- iterator has moved on before it is called.
unfoldable pub update_all :
    {S : Type 0} → (S → List (ℕ × ℕ)) → (ℕ → ℕ → S → Run S) → ℕ → List (ℕ × ℕ) → S → Run S
update_all convs_of update current [] s = ok s
update_all convs_of update current ((conv, endpoint) ∷ rest) s =
    let skip = update_all convs_of update current rest s in
    if among conv (keys (convs_of s))
    then (do
      s' ← update endpoint current s
      elim (conv_there (next_conv_ahead (convs_of s) rest) (convs_of s')) [
        | true ↦ update_all convs_of update current rest s'
        | false ↦ fault
      ])
    else skip

unfoldable pub on_time : {S : Type 0} → (S → List (ℕ × ℕ)) → (ℕ → ℕ → S → Run S) → ℕ → S → Run S
on_time convs_of update current s = update_all convs_of update current (convs_of s) s
