-- ===== src/Tcp/Acceptor.antt =====
-- `class acceptor` of lib/asio_reactor/tcp/acceptor.h. The sockets that it has handed to
-- `on_connected` are numbered, and `accepts` counts the `async_accept`s that asio has not answered.
use simple_network.Base.{ℕ, ◌+◌, ◌-◌, Bool, List, [], ◌∷◌, ◌++◌, if◌then◌else◌}

pub record Acceptor : Type 0 where
  pub accepted : List ℕ
  pub accepts : ℕ
  pub is_listening : Bool

unfoldable pub make : Acceptor
make = record { accepted = []; accepts = 0; is_listening = Bool.false }

unfoldable pub do_accept : Acceptor → Acceptor
do_accept a = record a { accepts = a.accepts + 1 }

unfoldable pub listen : Acceptor → Acceptor
listen a = do_accept (record a { is_listening = Bool.true })

-- The handler of `async_accept`, for the socket `s`.
unfoldable pub on_accept : Bool → ℕ → Acceptor → Acceptor
on_accept error s a =
    let a₀ = record a { accepts = a.accepts - 1 } in
    if error then a₀ else do_accept (record a₀ { accepted = a₀.accepted ++ (s ∷ []) })

-- What comes from asio while the program runs: one answer after the other.
unfoldable pub run_accepts : List (Bool × ℕ) → Acceptor → Acceptor
run_accepts [] a = a
run_accepts ((error, s) ∷ answers) a = run_accepts answers (on_accept error s a)
