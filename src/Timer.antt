-- ===== src/Timer.antt =====
-- lib/asio_reactor/timer: `class base` of base.h over an asio timer, and `class timer` of timer.h. The
-- state `S` is what `on_time` works on.
pub mod Laws
mod Tests
use simple_network.Base.{
  ℕ, zero, suc, ◌%◌, ◌^◌, Bool, true, false, Option, none, some, List, [], ◌∷◌, ◌++◌, if◌then◌else◌,
}

-- `expires` is the time to wait that was last set, in milliseconds, and `waiting` the wait that is not
-- over: its milliseconds, and whether it repeats. `queued` are the waits that are over and whose handlers
-- asio has still to call. To set a time or to cancel ends the wait that is not over, whose handler then
-- does nothing; a wait that is over is not canceled, and its handler runs without an error.
pub record Timer : Type 0 where
  pub expires : Option ℕ
  pub waiting : Option (ℕ × Bool)
  pub queued : List (ℕ × Bool)

unfoldable pub make : Timer
make = record { expires = none; waiting = none; queued = [] }

unfoldable pub expires_from_now : ℕ → Timer → Timer
expires_from_now milliseconds t = record t { expires = some milliseconds; waiting = none }

unfoldable pub cancel : Timer → Timer
cancel t = record t { waiting = none }

unfoldable pub do_time : ℕ → Bool → Timer → Timer
do_time milliseconds repeat t = record (cancel t) { waiting = some (milliseconds, repeat) }

-- `delay`, given `seconds * 1000` as the `uint32` that it is cut to.
unfoldable pub delay : ℕ → Bool → Timer → Timer
delay milliseconds repeat t = do_time milliseconds repeat (expires_from_now milliseconds t)

-- The handler of the wait `(milliseconds, repeat)`, when the time is `now`. `on_time` may set the timer.
unfoldable pub on_wait :
    {S : Type 0} → (ℕ → Timer × S → Timer × S) → ℕ → ℕ × Bool → Timer × S → Timer × S
on_wait on_time now (milliseconds, repeat) (t, s) =
    let (t', s') = on_time (now % 2 ^ 32) (expires_from_now milliseconds t, s) in
    if repeat then (do_time milliseconds repeat t', s') else (t', s')

-- The wait that is out is over.
unfoldable pub expire : Option (ℕ × Bool) → Timer → Timer
expire none t = t
expire (some wait) t = record t { waiting = none; queued = t.queued ++ (wait ∷ []) }

-- What asio does with the waits that are over: it calls the handler of the first one, once.
unfoldable pub dispatch :
    {S : Type 0} → (ℕ → Timer × S → Timer × S) → ℕ → List (ℕ × Bool) → Timer × S → Timer × S
dispatch on_time now [] ts = ts
dispatch on_time now (wait ∷ queued) (t, s) =
    on_wait on_time now wait (record t { queued = queued }, s)

-- What happens to a timer: the wait that is out is over, or a handler is called, at a time.
pub data Event : Type 0 where
  over : Event
  call : ℕ → Event

unfoldable pub step : {S : Type 0} → (ℕ → Timer × S → Timer × S) → Event → Timer × S → Timer × S
step on_time over (t, s) = (expire t.waiting t, s)
step on_time (call now) (t, s) = dispatch on_time now t.queued (t, s)

unfoldable pub run_events :
    {S : Type 0} → (ℕ → Timer × S → Timer × S) → List Event → Timer × S → Timer × S
run_events on_time [] ts = ts
run_events on_time (e ∷ es) ts = run_events on_time es (step on_time e ts)

-- At each of these times the wait that is out, if any, is over, and its handler is called.
abbrev pub prompt : List ℕ → List Event
prompt [] = []
prompt (now ∷ times) = over ∷ call now ∷ prompt times
