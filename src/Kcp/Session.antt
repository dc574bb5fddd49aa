-- ===== src/Kcp/Session.antt =====
-- The life of a kcp acceptor: datagrams that come and sockets that go, in any order.
use simple_network.Base.{
  ℕ, ◌-◌, ◌≤◌, ◌<◌, ◌≡◌, refl, sym, subst, ◌∙◌, inl, inr, Bool, true, false, Option, none, length,
  among, Bool-cases, ok, ok-injective,
}
use simple_network.Udp.{is_accepted, do_accept}
use simple_network.Kcp.Conv.{all_convs}
use simple_network.Kcp.Acceptor.{Hub, keys, on_accept, close_conv}
use simple_network.Kcp.Hubs.{IsValid, IsEntry, on_accept-IsValid, close_conv-IsValid}

-- A datagram, whatever asio answers; or the end of a socket whose conversation and endpoint are kept.
pub data Step (hub : Hub) : Hub → Type 0 where
  datagram :
      {hub' : Hub} (fuel endpoint : ℕ) (error refused : Bool) (conv : Option ℕ)
      → length (keys hub.convs) < fuel
      → fuel ≤ all_convs
      → on_accept fuel error refused endpoint hub ≡ ok (conv, hub')
      → Step hub hub'
  gone :
      (conv endpoint : ℕ)
      → IsEntry conv endpoint hub.convs
      → Step hub (close_conv conv endpoint hub)

pub data Reach (start : Hub) : Hub → Type 0 where
  here : Reach start start
  next : {hub hub' : Hub} → Reach start hub → Step hub hub' → Reach start hub'

-- What the handler leaves when it adds nothing.
abbrev unchanged : Hub → Hub
unchanged hub = record hub { acceptor = record hub.acceptor { accepts = hub.acceptor.accepts - 1 } }

abbrev waiting : Hub → Hub
waiting hub = record hub { acceptor = do_accept (unchanged hub).acceptor }

unchanged-IsValid : {hub : Hub} → IsValid hub → IsValid (unchanged hub)
unchanged-IsValid v = record {
  convs_differ = v.convs_differ;
  endpoints_differ = v.endpoints_differ;
  in_step = v.in_step;
}

waiting-IsValid : {hub : Hub} → IsValid hub → IsValid (waiting hub)
unfolding do_accept
waiting-IsValid v = record {
  convs_differ = v.convs_differ;
  endpoints_differ = v.endpoints_differ;
  in_step = v.in_step;
}

-- The handler keeps a hub valid whatever asio answers.
pub on_accept-keeps :
    (fuel endpoint : ℕ) (error refused : Bool) (hub : Hub)
    → IsValid hub
    → length (keys hub.convs) < fuel
    → fuel ≤ all_convs
    → (r : Option ℕ × Hub) × (on_accept fuel error refused endpoint hub ≡ ok r) × IsValid r.1
unfolding on_accept is_accepted
on_accept-keeps fuel endpoint true refused hub v more few =
    ((none, unchanged hub), refl, unchanged-IsValid v)
on_accept-keeps fuel endpoint false true hub v more few =
    elim (Bool-cases (among endpoint hub.acceptor.remote_endpoints)) [
      | inl known ↦ ((none, waiting hub), rw known, waiting-IsValid v)
      | inr new ↦ ((none, waiting hub), rw new, waiting-IsValid v)
    ]
on_accept-keeps fuel endpoint false false hub v more few =
    let (r, run, valid, _, _) = on_accept-IsValid fuel endpoint hub v more few in (r, run, valid)

Step-IsValid : {hub hub' : Hub} → Step hub hub' → IsValid hub → IsValid hub'
Step-IsValid {hub} {hub'} (datagram fuel endpoint error refused conv more few run) v =
    let (r, run', valid) = on_accept-keeps fuel endpoint error refused hub v more few in
    subst (λ (r : Option ℕ × Hub). IsValid r.1) (ok-injective (sym run' ∙ run)) valid
Step-IsValid {hub} (gone conv endpoint h) v = (close_conv-IsValid conv endpoint hub v h).0

-- In every state that an acceptor reaches from a valid one, through datagrams with any answers of asio
-- and the ends of sockets that it keeps, in any order, no conversation and no endpoint is kept twice,
-- and the endpoints are those of the conversations.
pub Reach-IsValid : {start hub : Hub} → IsValid start → Reach start hub → IsValid hub
Reach-IsValid v here = v
Reach-IsValid v (next r step) = Step-IsValid step (Reach-IsValid v r)
