-- ===== src/Programs/Server/Starting.antt =====
-- What `main` of the server leaves, and a connection that it accepts.
use simple_network.Base.{
  ◌<◌, zero, suc, arith, false, ℕ, ◌≡◌, refl, Bool-cases, inl, inr, true, some, [], ok, among,
  among-end_same,
}
use simple_network.Connection.{World, connected, become_connected}
use simple_network.Connection
use simple_network.Udp
use simple_network.Kcp.{Ikcp}
use simple_network.Kcp
use simple_network.Kcp.Acceptor.{Hub}
use simple_network.Kcp.Acceptor
use simple_network.Kcp.Socket.{Line, make_line}
use simple_network.Kcp.Socket
use simple_network.Mgr.{Mgr}
use simple_network.Mgr
use simple_network.Timer
use simple_network.Buffer
use simple_network.Buffer.Circle
use simple_network.Buffer.Data
use simple_network.Programs.Client.Counting.{IsTicking}
use simple_network.Programs.Server.{Session, main, on_accepted, on_connected, sender, server}

-- With an io_service that has not been stopped, `main` ends with the manager running and the
-- acceptor's timer in its set, and with an acceptor without conversations and endpoints that waits for
-- two datagrams at once. A connection that it accepts is CONNECTED, has its kcp object, waits for one
-- datagram, has sent and printed nothing, and waits a second, once; for fuel above 0.
pub main-serves :
    {K S : Type 0} (i : Ikcp K) (fuel self : ℕ) (kcp : K) (m : Mgr S)
    → m.stopped ≡ false
    → 0 < fuel
    → (hub : Hub) × (m' : Mgr S) × (w : World (Line K Session)) × (main self m ≡ ok (hub, m'))
      × (among self m'.timers ≡ true)
      × IsTicking m'
      × (hub.convs ≡ [])
      × (hub.acceptor ≡ record { remote_endpoints = []; accepts = 2 })
      × (on_accepted i fuel kcp m' ≡ ok w)
      × (w.out.state ≡ connected)
      × (w.out.env.kcp ≡ some kcp)
      × (w.out.env.datagrams ≡ [])
      × (w.out.env.reads ≡ 1)
      × (w.out.env.app.printed ≡ [])
      × (w.out.env.app.timer.waiting ≡ some (1000, false))
unfolding main on_accepted on_connected sender server Acceptor.make Acceptor.listen Udp.make
    Udp.do_accept Connection.make make_line become_connected Mgr.add Mgr.run Mgr.start Mgr.delay_own
    Timer.delay Timer.do_time Timer.expires_from_now Mgr.new_timer Kcp.do_write Socket.socket
    Socket.open_line Socket.do_read Socket.write_kcp Timer.make Circle.get_count Circle.get_count_at
    Buffer.make Circle.make Data.make
main-serves i zero self kcp m runs pos = absurd (omega arith)
main-serves i (suc fuel) self kcp m runs pos = (
  _,
  Mgr.run (Mgr.add self m),
  _,
  refl,
  elim (Bool-cases (among self m.timers)) [
    | inl old ↦ rw old old
    | inr new ↦ rw new (among-end_same self m.timers)
  ],
  (refl, elim (Bool-cases (among self m.timers)) [ inl old ↦ rw old runs | inr new ↦ rw new runs ]),
  refl,
  refl,
  refl,
  refl,
  refl,
  refl,
  refl,
  refl,
  refl,
)
