-- ===== src/Mgr/Tests.antt =====
-- A manager with three timers: the theorems at concrete inputs.
use simple_network.Base.{
  tt, ℕ, ◌≡◌, ◌≢◌, refl, true, false, List, [], ◌∷◌, ◌++◌, ◌==◌, among, AllDiffer, ok, fault,
}
use simple_network.Timer.{make}
use simple_network.Mgr.{Mgr, add, remove, on_time}
use simple_network.Mgr.Laws.{Effect, fire, call_all, add-remove, on_time-all, on_time-dangling}

abbrev three : Mgr (List ℕ)
three = record { timers = 7 ∷ 8 ∷ 9 ∷ []; stopped = false; timer = make; state = [] }

three-AllDiffer : AllDiffer three.timers
three-AllDiffer = (refl, (refl, (refl, tt)))

add-remove_example :
    ((among 8 (add 8 three).timers ≡ true) × AllDiffer (add 8 three).timers)
    × (among 8 (remove 8 three).timers ≡ false)
    × ((u : ℕ) → u ≢ 8 → among u (remove 8 three).timers ≡ among u three.timers)
    × AllDiffer (remove 8 three).timers
add-remove_example = add-remove 8 three three-AllDiffer

-- Each timer logs its call, and the timer 8 removes itself.
abbrev one_shot : Effect (List ℕ)
one_shot = record { leaves = λ t log. t == 8; change = λ t log. log ++ (t ∷ []) }

on_time-all_example :
    (m' : Mgr (List ℕ)) × (on_time (fire one_shot) three ≡ ok m')
    × (m'.state ≡ call_all one_shot (7 ∷ 8 ∷ 9 ∷ []) [])
on_time-all_example = on_time-all one_shot three three-AllDiffer

on_time-dangling_example : on_time (λ _ m'. ok (remove 8 m')) three ≡ fault
on_time-dangling_example = on_time-dangling 7 8 (9 ∷ []) three refl three-AllDiffer
