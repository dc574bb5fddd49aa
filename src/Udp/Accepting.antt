-- ===== src/Udp/Accepting.antt =====
-- The endpoints of udp/acceptor.h: each that is accepted is kept once, until its socket goes.
use simple_network.Base.{
  ℕ, ◌≡◌, ◌≢◌, refl, inl, inr, true, false, Bool-cases, not, among, AllDiffer, among-end_same,
  AllDiffer-end, AllDiffer-erase, erase_same, erase_other,
}
use simple_network.Udp.{Acceptor, is_accepted, close_endpoint, do_accept, on_accept}

-- A datagram from an endpoint whose socket can connect, when no endpoint is kept twice: it is accepted
-- afterwards, it gets a new
-- socket if and only if it was not accepted before, no endpoint is kept twice, and the acceptor waits
-- again.
pub on_accept-once :
    (e : ℕ) (a : Acceptor)
    → AllDiffer a.remote_endpoints
    → ((on_accept false false e a).0 ≡ not (is_accepted a e))
      × (is_accepted (on_accept false false e a).1 e ≡ true)
      × AllDiffer (on_accept false false e a).1.remote_endpoints
unfolding on_accept is_accepted do_accept
on_accept-once e a d = elim (Bool-cases (among e a.remote_endpoints)) [
  | inl known ↦ rw known (refl, known, d)
  | inr new ↦
      rw new (refl, among-end_same e a.remote_endpoints, AllDiffer-end e a.remote_endpoints d new)
]

-- After `close` of an endpoint, when none is kept twice, it is not accepted, the others are as before,
-- and none is kept
-- twice.
pub close_endpoint-forgets :
    (e : ℕ) (a : Acceptor)
    → AllDiffer a.remote_endpoints
    → (is_accepted (close_endpoint a e) e ≡ false)
      × ((y : ℕ) → y ≢ e → is_accepted (close_endpoint a e) y ≡ is_accepted a y)
      × AllDiffer (close_endpoint a e).remote_endpoints
unfolding close_endpoint is_accepted
close_endpoint-forgets e a d = (
  erase_same e a.remote_endpoints d,
  (λ y h. erase_other e y a.remote_endpoints h),
  AllDiffer-erase e a.remote_endpoints d,
)
