-- ===== src/Timer/Laws.antt =====
-- When the timers of timer/base.h call `on_time`.
use simple_network.Base.{ℕ, ◌%◌, ◌^◌, ◌≡◌, refl, Bool, true, false, none, some, List, [], ◌∷◌}
use simple_network.Timer.{
  Timer, Event, over, call, cancel, do_time, delay, expires_from_now, on_wait, expire, dispatch,
  step, run_events, prompt,
}

-- What the calls at these times make of the state.
abbrev pub called : {S : Type 0} → (ℕ → S → S) → List ℕ → S → S
called f [] s = s
called f (now ∷ times) s = called f times (f (now % 2 ^ 32) s)

-- An `on_time` that leaves the timer alone.
abbrev pub plain : {S : Type 0} → (ℕ → S → S) → ℕ → Timer × S → Timer × S
plain f now (t, s) = (t, f now s)

-- The timer while it repeats.
abbrev pub repeating : ℕ → Timer
repeating milliseconds = record {
  expires = some milliseconds;
  waiting = some (milliseconds, true);
  queued = [];
}

-- The timer after its last call.
abbrev pub ended : ℕ → Timer
ended milliseconds = record { expires = some milliseconds; waiting = none; queued = [] }

repeats :
    {S : Type 0} (f : ℕ → S → S) (milliseconds : ℕ) (times : List ℕ) (s : S)
    → run_events (plain f) (prompt times) (repeating milliseconds, s)
      ≡ (repeating milliseconds, called f times s)
unfolding run_events step expire dispatch on_wait do_time cancel expires_from_now
repeats f milliseconds [] s = refl
repeats f milliseconds (now ∷ times) s = repeats f milliseconds times (f (now % 2 ^ 32) s)

rests :
    {S : Type 0} (f : ℕ → S → S) (milliseconds : ℕ) (events : List Event) (s : S)
    → run_events (plain f) events (ended milliseconds, s) ≡ (ended milliseconds, s)
unfolding run_events step expire dispatch
rests f milliseconds [] s = refl
rests f milliseconds (over ∷ events) s = rests f milliseconds events s
rests f milliseconds (call now ∷ events) s = rests f milliseconds events s

-- After `delay`, when no wait of before is over and still to be answered, an `on_time` that leaves the
-- timer alone is called at each time that the wait is over, if its handler is called before anything
-- else happens: at all of them if the timer repeats, and at the first of them only if not.
pub delay-calls :
    {S : Type 0} (f : ℕ → S → S) (milliseconds : ℕ) (t : Timer) (now : ℕ) (times : List ℕ) (s : S)
    → t.queued ≡ []
    → (run_events (plain f) (prompt (now ∷ times)) (delay milliseconds true t, s)
        ≡ (repeating milliseconds, called f (now ∷ times) s))
      × (run_events (plain f) (prompt (now ∷ times)) (delay milliseconds false t, s)
          ≡ (ended milliseconds, f (now % 2 ^ 32) s))
unfolding run_events step expire dispatch on_wait do_time cancel expires_from_now delay
delay-calls f milliseconds t now times s nothing = rw nothing (
  repeats f milliseconds times (f (now % 2 ^ 32) s),
  rests f milliseconds (prompt times) (f (now % 2 ^ 32) s),
)

-- When a wait that does not repeat is over and its handler has still to be called, `delay` does not
-- cancel it: the handler, when it is called before the new wait is over, calls `on_time` and ends the new
-- wait, so that `on_time` is not called again, whatever else happens to the timer by itself, for an
-- `on_time` that leaves the timer alone.
pub delay-lost :
    {S : Type 0} (f : ℕ → S → S) (old milliseconds : ℕ) (repeat : Bool) (t : Timer) (now : ℕ)
    (events : List Event) (s : S)
    → t.waiting ≡ some (old, false)
    → t.queued ≡ []
    → run_events (plain f) (call now ∷ events) (delay milliseconds repeat (expire t.waiting t), s)
      ≡ (ended old, f (now % 2 ^ 32) s)
unfolding run_events step expire dispatch on_wait do_time cancel expires_from_now delay
delay-lost f old milliseconds repeat t now events s out nothing =
    rw (out, nothing) (rests f old events (f (now % 2 ^ 32) s))
