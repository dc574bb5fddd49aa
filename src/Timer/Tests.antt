-- ===== src/Timer/Tests.antt =====
-- Timers that log the times of their calls: the theorems at concrete inputs.
use simple_network.Base.{ℕ, ◌%◌, ◌^◌, ◌≡◌, refl, true, false, some, List, [], ◌∷◌, ◌++◌}
use simple_network.Timer.{Timer, make, delay, call, expire, run_events, prompt}
use simple_network.Timer.Laws.{plain, called, repeating, ended, delay-calls, delay-lost}

abbrev log : ℕ → List ℕ → List ℕ
log now times = times ++ (now ∷ [])

delay-calls_example :
    (run_events (plain log) (prompt (20 ∷ 40 ∷ 60 ∷ [])) (delay 20 true make, [])
      ≡ (repeating 20, called log (20 ∷ 40 ∷ 60 ∷ []) []))
    × (run_events (plain log) (prompt (20 ∷ 40 ∷ 60 ∷ [])) (delay 20 false make, [])
        ≡ (ended 20, log (20 % 2 ^ 32) []))
unfolding make
delay-calls_example = delay-calls log 20 make 20 (40 ∷ 60 ∷ []) [] refl

-- A wait of ten milliseconds is out, and is over when `delay` sets one of thirty.
abbrev single : Timer
single = record { expires = some 10; waiting = some (10, false); queued = [] }

delay-lost_example :
    run_events
      (plain log)
      (call 11 ∷ prompt (40 ∷ 70 ∷ []))
      (delay 30 true (expire single.waiting single), [])
    ≡ (ended 10, log (11 % 2 ^ 32) [])
delay-lost_example = delay-lost log 10 30 true single 11 (prompt (40 ∷ 70 ∷ [])) [] refl refl
