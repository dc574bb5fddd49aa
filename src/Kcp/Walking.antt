-- ===== src/Kcp/Walking.antt =====
-- The loop of `acceptor::on_time` of kcp/acceptor.h over the sockets.
use simple_network.Base.{ℕ, ◌≡◌, ◌≢◌, true, false, List, [], ◌∷◌, among}
use simple_network.Kcp.Acceptor.{keys}

-- The updates of these sockets, one after the other.
abbrev pub visit : {S : Type 0} → (ℕ → S → S) → List ℕ → S → S
visit f [] s = s
visit f (endpoint ∷ endpoints) s = visit f endpoints (f endpoint s)

-- The update of a socket leaves the conversations of the others in the map.
abbrev pub LeavesOthers : {S : Type 0} → (S → List (ℕ × ℕ)) → (ℕ → S → S) → List (ℕ × ℕ) → Type 0
LeavesOthers convs_of f [] = Unit {0}
LeavesOthers {S} convs_of f ((conv, endpoint) ∷ convs) =
    ((s : S) (u : ℕ)
      → u ≢ conv
      → among u (keys (convs_of (f endpoint s))) ≡ among u (keys (convs_of s)))
    × LeavesOthers convs_of f convs

-- The conversations ahead are in the map, and differ.
abbrev Ahead : {S : Type 0} → (S → List (ℕ × ℕ)) → List (ℕ × ℕ) → S → Type 0
Ahead convs_of [] s = Unit {0}
Ahead convs_of ((conv, endpoint) ∷ rest) s =
    (among conv (keys (convs_of s)) ≡ true)
    × (among conv (keys rest) ≡ false)
    × Ahead convs_of rest s

module _ {S : Type 0} (convs_of : S → List (ℕ × ℕ)) (f : ℕ → S → S) where
  -- An update of the socket of `conv`.
  abbrev Keeps : ℕ → ℕ → Type 0
  Keeps conv endpoint =
      (s : S) (u : ℕ)
      → u ≢ conv
      → among u (keys (convs_of (f endpoint s))) ≡ among u (keys (convs_of s))
