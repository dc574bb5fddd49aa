-- ===== src/Mgr/Laws.antt =====
-- The manager's set of timers, and the loop that calls them.
use simple_network.Base.{
  ℕ, ◌≡◌, ◌≢◌, refl, sym, ap, ◌∙◌, inl, inr, Bool, true, false, some, List, [], ◌∷◌, ◌++◌,
  if◌then◌else◌, among, AllDiffer, AllDiffer-end, AllDiffer-erase, among-end_same, erase_same,
  erase_other, Bool-cases, eq→==, ne→==, eq-or-ne, Run, ok, fault, tt, among-head, append_assoc,
}
use simple_network.Mgr.{Mgr, add, remove, next_timer, still_there, walk, on_time}

-- The timer is there after `add`, and gone after `remove`, which leaves the others; none is there twice.
pub add-remove :
    {S : Type 0} (t : ℕ) (m : Mgr S)
    → AllDiffer m.timers
    → ((among t (add t m).timers ≡ true) × AllDiffer (add t m).timers)
      × (among t (remove t m).timers ≡ false)
      × ((u : ℕ) → u ≢ t → among u (remove t m).timers ≡ among u m.timers)
      × AllDiffer (remove t m).timers
unfolding add remove
add-remove t m d = (
  elim (Bool-cases (among t m.timers)) [
    | inl there ↦ rw there (there, d)
    | inr new ↦ rw new (among-end_same t m.timers, AllDiffer-end t m.timers d new)
  ],
  erase_same t m.timers d,
  (λ u h. erase_other t u m.timers h),
  AllDiffer-erase t m.timers d,
)

-- What a timer does when it is called: it may change the state and remove itself.
pub record Effect (S : Type 0) : Type 0 where
  pub leaves : ℕ → S → Bool
  pub change : ℕ → S → S

abbrev pub fire : {S : Type 0} → Effect S → ℕ → Mgr S → Run (Mgr S)
fire e t m =
    let m' = record m { state = e.change t m.state } in
    ok (if e.leaves t m.state then remove t m' else m')

-- All timers called, one after the other, and those that are left.
abbrev pub call_all : {S : Type 0} → Effect S → List ℕ → S → S
call_all e [] s = s
call_all e (t ∷ ts) s = call_all e ts (e.change t s)

-- The timers ahead are in the set, and differ.
abbrev Ahead : {S : Type 0} → List ℕ → Mgr S → Type 0
Ahead [] m = Unit {0}
Ahead (t ∷ rest) m = (among t m.timers ≡ true) × (among t rest ≡ false) × Ahead rest m

after : {S : Type 0} → Effect S → ℕ → Mgr S → Mgr S
after e t m =
    let m' = record m { state = e.change t m.state } in
    if e.leaves t m.state then remove t m' else m'

after-among :
    {S : Type 0} (e : Effect S) (t u : ℕ) (m : Mgr S)
    → u ≢ t
    → among u (after e t m).timers ≡ among u m.timers
unfolding after remove
after-among e t u m h = elim (Bool-cases (e.leaves t m.state)) [
  | inl goes ↦ rw goes (erase_other t u m.timers h)
  | inr stays ↦ rw stays
]

after-state :
    {S : Type 0} (e : Effect S) (t : ℕ) (m : Mgr S) → (after e t m).state ≡ e.change t m.state
unfolding after remove
after-state e t m = elim (Bool-cases (e.leaves t m.state)) [
  | inl goes ↦ rw goes
  | inr stays ↦ rw stays
]

Ahead-after :
    {S : Type 0} (e : Effect S) (t : ℕ) (rest : List ℕ) (m : Mgr S)
    → among t rest ≡ false
    → Ahead rest m
    → Ahead rest (after e t m)
Ahead-after e t [] m new a = tt
Ahead-after e t (u ∷ rest) m new (there, differs, a) =
    let (other, more) = among-head t u rest new in
    (after-among e t u m other ∙ there, differs, Ahead-after e t rest m more a)

there-after :
    {S : Type 0} (e : Effect S) (t : ℕ) (rest : List ℕ) (m : Mgr S)
    → among t rest ≡ false
    → Ahead rest m
    → still_there (next_timer m rest) (after e t m) ≡ true
unfolding next_timer still_there
there-after e t [] m new a = refl
there-after e t (u ∷ rest) m new (there, differs, a) =
    rw there (after-among e t u m (among-head t u rest new).0 ∙ there)

fired : {S : Type 0} (e : Effect S) (t : ℕ) (m : Mgr S) → fire e t m ≡ ok (after e t m)
unfolding after
fired e t m = refl

-- All are in the set.
abbrev AllIn : {S : Type 0} → List ℕ → Mgr S → Type 0
AllIn [] m = Unit {0}
AllIn (t ∷ ts) m = (among t m.timers ≡ true) × AllIn ts m

pub among-middle : (t : ℕ) (front ts : List ℕ) → among t (front ++ (t ∷ ts)) ≡ true
among-middle t [] ts = rw (eq→== t t refl)
among-middle t (x ∷ front) ts = elim (eq-or-ne x t) [
  | inl same ↦ rw (eq→== x t same)
  | inr other ↦ rw (ne→== x t other, among-middle t front ts)
]

walk-all :
    {S : Type 0} (e : Effect S) (ahead : List ℕ) (m : Mgr S)
    → Ahead ahead m
    → (m' : Mgr S) × (walk (fire e) ahead m ≡ ok m') × (m'.state ≡ call_all e ahead m.state)
unfolding walk
walk-all e [] m a = (m, refl, refl)
walk-all e (t ∷ rest) m (there, differs, a) =
    let (m', run, state) = walk-all e rest (after e t m) (Ahead-after e t rest m differs a) in
    (
      m',
      rw (there, fired e t m)
          (ap (λ b. elim b [ true ↦ walk (fire e) rest (after e t m) | false ↦ fault ])
              (there-after e t rest m differs a)
            ∙ run),
      state ∙ ap (call_all e rest) (after-state e t m),
    )

AllDiffer-Ahead : (ts : List ℕ) {S : Type 0} (m : Mgr S) → AllDiffer ts → AllIn ts m → Ahead ts m
AllDiffer-Ahead [] m d i = tt
AllDiffer-Ahead (t ∷ ts) m (new, d) (there, i) = (there, new, AllDiffer-Ahead ts m d i)

-- Elements of a list are among a list that has them behind others.
within_end : (front ts : List ℕ) {S : Type 0} (m : Mgr S) → m.timers ≡ front ++ ts → AllIn ts m
within_end front [] m e = tt
within_end front (t ∷ ts) m e = (
  ap (among t) e ∙ among-middle t front ts,
  within_end (front ++ (t ∷ [])) ts m (e ∙ sym (append_assoc front (t ∷ []) ts)),
)

-- `on_time` calls every timer of the set once, in the order of the set, and never uses an iterator to an
-- erased timer, when no timer is in the set twice and each at most changes the state and removes
-- itself.
pub on_time-all :
    {S : Type 0} (e : Effect S) (m : Mgr S)
    → AllDiffer m.timers
    → (m' : Mgr S) × (on_time (fire e) m ≡ ok m') × (m'.state ≡ call_all e m.timers m.state)
unfolding on_time
on_time-all e m d =
    walk-all e m.timers m (AllDiffer-Ahead m.timers m d (within_end [] m.timers m refl))

-- A timer that removes the next one in the set, in which no timer is twice, leaves `on_time` with an
-- iterator to an erased element.
pub on_time-dangling :
    {S : Type 0} (t u : ℕ) (rest : List ℕ) (m : Mgr S)
    → m.timers ≡ t ∷ u ∷ rest
    → AllDiffer m.timers
    → on_time (λ _ m'. ok (remove u m')) m ≡ fault
unfolding on_time walk next_timer still_there remove
on_time-dangling {S} t u rest m e d =
    ap (λ ts. walk removes ts m) e
    ∙ rw there.0 (
        ap (λ b. elim b [ true ↦ walk removes (u ∷ rest) (remove u m) | false ↦ fault ])
          (ap (λ b. still_there (if b then some u else next_timer m rest) (remove u m)) there.1.0
            ∙ erase_same u m.timers d))
  where
    removes : ℕ → Mgr S → Run (Mgr S)
    removes _ m' = ok (remove u m')

    there : AllIn (t ∷ u ∷ rest) m
    there = within_end [] (t ∷ u ∷ rest) m e
