-- ===== src/Mgr.antt =====
-- lib/asio_reactor/mgr.h and lib/simple/reactor/mgr.h: the manager, its set of timers, and `listen` and
-- `connect`, which make an acceptor or a connector and start it. A timer is a number; the order of the
-- list is the order in which the set is walked.
pub mod Laws
mod Tests
use simple_network.Base.{
  ℕ, Bool, true, false, Option, none, some, List, [], ◌∷◌, ◌++◌, if◌then◌else◌, among, erase, Run,
  ok, fault, ◌>>=◌,
}
use simple_network.Timer.{Timer, delay}
use simple_network.Timer

-- `timers_`, whether the io_service runs, the manager's own timer, and all else that the timers work on.
pub record Mgr (S : Type 0) : Type 0 where
  pub timers : List ℕ
  pub stopped : Bool
  pub timer : Timer
  pub state : S

module _ {S : Type 0} where
  unfoldable pub make : S → Mgr S
  make s = record { timers = []; stopped = false; timer = Timer.make; state = s }

  -- The one manager of the program, which the first call makes: `none` before it.
  unfoldable pub get_instance : S → Option (Mgr S) → Mgr S
  get_instance s none = make s
  get_instance s (some m) = m

  -- The destructor forgets the timers.
  unfoldable pub drop : Mgr S → Mgr S
  drop m = record m { timers = [] }

  -- `timers_.insert`
  unfoldable pub add : ℕ → Mgr S → Mgr S
  add t m = if among t m.timers then m else record m { timers = m.timers ++ (t ∷ []) }

  -- `timers_.erase`
  unfoldable pub remove : ℕ → Mgr S → Mgr S
  remove t m = record m { timers = erase t m.timers }

  -- `delay` of the manager's own timer.
  unfoldable pub delay_own : ℕ → Bool → Mgr S → Mgr S
  delay_own milliseconds repeat m = record m { timer = delay milliseconds repeat m.timer }

  -- `run`, to the call of `io_service_.run`, which returns at once when the service has been stopped:
  -- the timer of 20 milliseconds is set.
  unfoldable pub run : Mgr S → Mgr S
  run m = delay_own 20 true m

  unfoldable pub stop : Mgr S → Mgr S
  stop m = record m { stopped = true }

  unfoldable pub is_stopped : Mgr S → Bool
  is_stopped m = m.stopped

  -- The first of the elements ahead that are in the set: where the iterator points after `it++`.
  unfoldable pub next_timer : Mgr S → List ℕ → Option ℕ
  next_timer m [] = none
  next_timer m (t ∷ rest) =
      let later = next_timer m rest in if among t m.timers then some t else later

  -- An iterator to an element that has been erased is a fault when it is used.
  unfoldable pub still_there : Option ℕ → Mgr S → Bool
  still_there none m = true
  still_there (some t) m = among t m.timers

  -- The loop of `on_time` over the elements ahead. `fire` calls `on_time` of one timer; it may add and
  -- remove timers, and the iterator has moved on before it is called.
  unfoldable pub walk : (ℕ → Mgr S → Run (Mgr S)) → List ℕ → Mgr S → Run (Mgr S)
  walk fire [] m = ok m
  walk fire (t ∷ rest) m =
      let skip = walk fire rest m in
      if among t m.timers
      then (do
        m' ← fire t m
        elim (still_there (next_timer m rest) m') [ true ↦ walk fire rest m' | false ↦ fault ])
      else skip

  unfoldable pub on_time : (ℕ → Mgr S → Run (Mgr S)) → Mgr S → Run (Mgr S)
  on_time fire m = walk fire m.timers m

  -- `on_time` of the manager's own timer; `fire` is also given the time.
  unfoldable pub tick : (ℕ → ℕ → Mgr S → Run (Mgr S)) → ℕ → Mgr S → Run (Mgr S)
  tick fire current m = on_time (fire current) m

  -- The constructor of `class timer` of timer.h.
  unfoldable pub new_timer : Mgr S → Timer
  new_timer m = Timer.make

  -- `mgr::listen` and `mgr::connect`: `create` is the constructor of the acceptor or the connector, which
  -- is given the manager, and `begin` its `listen` or `connect`. It is handed back.
  unfoldable pub start :
      {A : Type 0} → (Mgr S → A × Mgr S) → (A → Mgr S → Run (A × Mgr S)) → Mgr S → Run (A × Mgr S)
  start create begin m = let (object, m') = create m in begin object m'
