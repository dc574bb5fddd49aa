-- ===== src/Tcp/Accepting.antt =====
-- The accepting loop of tcp/acceptor.h.
use simple_network.Base.{
  ℕ, ◌≡◌, sym, ap, ap₂, ◌∙◌, Bool, true, false, List, [], ◌∷◌, ◌++◌, append-nil, append_assoc,
  arith,
}
use simple_network.Tcp.Acceptor.{Acceptor, do_accept, on_accept, run_accepts}

-- Answers without an error.
abbrev pub succeed : List ℕ → List (Bool × ℕ)
succeed [] = []
succeed (s ∷ sockets) = (false, s) ∷ succeed sockets

-- An acceptor that waits once accepts every socket in order and waits again, and after an error
-- it waits no more.
pub run_accepts-all :
    (sockets : List ℕ) (a : Acceptor) (s : ℕ)
    → a.accepts ≡ 1
    → (run_accepts (succeed sockets) a ≡ record a { accepted = a.accepted ++ sockets })
      × (on_accept true s (run_accepts (succeed sockets) a)
          ≡ record a { accepted = a.accepted ++ sockets; accepts = 0 })
unfolding run_accepts on_accept do_accept
run_accepts-all sockets a s one = (
  all sockets a one,
  ap (on_accept true s) (all sockets a one)
      ∙ ap (λ n. record a { accepted = a.accepted ++ sockets; accepts = n }) (omega arith),
)
  where
    all :
        (sockets : List ℕ) (a : Acceptor)
        → a.accepts ≡ 1
        → run_accepts (succeed sockets) a ≡ record a { accepted = a.accepted ++ sockets }
    all [] a one =
        ap (λ xs. record a { accepted = xs }) {x = a.accepted} {y = a.accepted ++ []}
          (sym (append-nil a.accepted))
    all (s ∷ sockets) a one =
        all sockets (on_accept false s a) (omega arith)
        ∙ ap₂ (λ xs n. record a { accepted = xs; accepts = n })
            (append_assoc a.accepted (s ∷ []) sockets) (omega arith)
