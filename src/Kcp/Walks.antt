-- ===== src/Kcp/Walks.antt =====
-- Three sockets of an acceptor, of which the second erases its conversation when it is updated: the
-- theorem at a concrete input.
use simple_network.Base.{ℕ, List, [], ◌∷◌, ◌++◌, ◌==◌, if◌then◌else◌}
use simple_network.Kcp.Acceptor.{erase_key}

-- The map beside the sockets that were updated.
abbrev Visits : Type 0
Visits = List (ℕ × ℕ) × List ℕ

abbrev convs_of : Visits → List (ℕ × ℕ)
convs_of (convs, seen) = convs

abbrev log_visit : ℕ → Visits → Visits
log_visit endpoint (convs, seen) =
    (if endpoint == 20 then erase_key 2 convs else convs, seen ++ (endpoint ∷ []))

abbrev three : List (ℕ × ℕ)
three = (1, 10) ∷ (2, 20) ∷ (3, 30) ∷ []
