-- ===== src/Kcp/Hubs.antt =====
-- The conversations and the endpoints of kcp/acceptor.h stay in step.
use simple_network.Base.{
  ℕ, ◌-◌, ◌≤◌, ◌<◌, ◌≡◌, ◌≢◌, refl, sym, ap, subst, ◌∙◌, inl, inr, ◌⊎◌, true, false, Option, none,
  some, List, [], ◌∷◌, ◌++◌, length, among, erase, AllDiffer, AllDiffer-end, AllDiffer-erase,
  erase_same, Bool-cases, eq→==, ne→==, ok, among-end_same,
}
use simple_network.Udp.{is_accepted, close_endpoint, do_accept}
use simple_network.Kcp.Conv.{all_convs, get_conv-free}
use simple_network.Kcp.Acceptor.{Hub, keys, sockets, erase_key, add_conv, on_accept, close_conv}

-- No conversation and no endpoint is there twice, and the endpoints are those of the conversations.
pub record IsValid (hub : Hub) : Type 0 where
  pub convs_differ : AllDiffer (keys hub.convs)
  pub endpoints_differ : AllDiffer hub.acceptor.remote_endpoints
  pub in_step : sockets hub.convs ≡ hub.acceptor.remote_endpoints

keys-end : (convs : List (ℕ × ℕ)) (c e : ℕ) → keys (convs ++ ((c, e) ∷ [])) ≡ keys convs ++ (c ∷ [])
keys-end [] c e = refl
keys-end ((d, f) ∷ convs) c e = ap (◌∷◌ d) (keys-end convs c e)

sockets-end :
    (convs : List (ℕ × ℕ)) (c e : ℕ) → sockets (convs ++ ((c, e) ∷ [])) ≡ sockets convs ++ (e ∷ [])
sockets-end [] c e = refl
sockets-end ((d, f) ∷ convs) c e = ap (◌∷◌ f) (sockets-end convs c e)

-- The entry of a conversation, with neither of its two numbers in front of it.
abbrev pub IsEntry : ℕ → ℕ → List (ℕ × ℕ) → Type 0
IsEntry c e [] = ⊥
IsEntry c e ((d, f) ∷ convs) = ((d ≡ c) × (f ≡ e)) ⊎ ((d ≢ c) × (f ≢ e) × IsEntry c e convs)

erase-entry :
    (c e : ℕ) (convs : List (ℕ × ℕ))
    → IsEntry c e convs
    → (keys (erase_key c convs) ≡ erase c (keys convs))
      × (sockets (erase_key c convs) ≡ erase e (sockets convs))
erase-entry c e [] h = absurd h
erase-entry c e ((d, f) ∷ convs) (inl (p, q)) = (rw (eq→== d c p), rw (eq→== d c p, eq→== f e q))
erase-entry c e ((d, f) ∷ convs) (inr (p, q, h)) =
    let (ks, ss) = erase-entry c e convs h in
    (rw (ne→== d c p) (ap (◌∷◌ d) ks), rw (ne→== d c p, ne→== f e q) (ap (◌∷◌ f) ss))

-- What an accepted datagram leaves: a conversation for an endpoint that had none, which then has one.
abbrev pub Accepted : ℕ → Hub → Option ℕ × Hub → Type 0
Accepted endpoint hub (none, hub') =
    (is_accepted hub.acceptor endpoint ≡ true) × (hub'.convs ≡ hub.convs)
Accepted endpoint hub (some conv, hub') =
    (is_accepted hub.acceptor endpoint ≡ false)
    × (among conv (keys hub.convs) ≡ false)
    × (0 < conv)
    × (hub'.convs ≡ hub.convs ++ ((conv, endpoint) ∷ []))

-- A datagram from an endpoint whose socket can connect keeps the conversations and endpoints different
-- and in step, the endpoint is accepted afterwards, and if it was not before it gets a conversation
-- that no other has. Fuel above the number of conversations is enough, when fewer than 2^32 - 1 are in
-- use.
pub on_accept-IsValid :
    (fuel endpoint : ℕ) (hub : Hub)
    → IsValid hub
    → length (keys hub.convs) < fuel
    → fuel ≤ all_convs
    → (r : Option ℕ × Hub) × (on_accept fuel false false endpoint hub ≡ ok r)
      × IsValid r.1
      × (is_accepted r.1.acceptor endpoint ≡ true)
      × Accepted endpoint hub r
unfolding on_accept add_conv is_accepted do_accept
on_accept-IsValid fuel endpoint hub v more few =
    elim (Bool-cases (among endpoint hub.acceptor.remote_endpoints)) [
      | inl known ↦ (
        (
          none,
          record hub {
            acceptor = do_accept (record hub.acceptor { accepts = hub.acceptor.accepts - 1 });
          },
        ),
        rw known,
        record {
          convs_differ = v.convs_differ;
          endpoints_differ = v.endpoints_differ;
          in_step = v.in_step;
        },
        known,
        (known, refl),
      )
      | inr new ↦
          let (conv, run, free, pos, small) =
            get_conv-free fuel (keys hub.convs) hub.conv more few in
          (
            (some conv, joined conv),
            rw (new, run),
            record {
              convs_differ =
                  subst AllDiffer (sym (keys-end hub.convs conv endpoint))
                    (AllDiffer-end conv (keys hub.convs) v.convs_differ free);
              endpoints_differ =
                  AllDiffer-end endpoint hub.acceptor.remote_endpoints v.endpoints_differ new;
              in_step =
                  sockets-end hub.convs conv endpoint ∙ ap (λ es. es ++ (endpoint ∷ [])) v.in_step;
            },
            among-end_same endpoint hub.acceptor.remote_endpoints,
            (new, free, pos, refl),
          )
    ]
  where
    joined : ℕ → Hub
    joined conv = record {
      acceptor = do_accept (record {
        remote_endpoints = hub.acceptor.remote_endpoints ++ (endpoint ∷ []);
        accepts = hub.acceptor.accepts - 1;
      });
      convs = hub.convs ++ ((conv, endpoint) ∷ []);
      conv = conv;
    }

-- When a socket whose conversation and endpoint are kept goes, they go, and the conversations and
-- endpoints stay different and in step, when they were.
pub close_conv-IsValid :
    (conv endpoint : ℕ) (hub : Hub)
    → IsValid hub
    → IsEntry conv endpoint hub.convs
    → IsValid (close_conv conv endpoint hub)
      × (among conv (keys (close_conv conv endpoint hub).convs) ≡ false)
      × (is_accepted (close_conv conv endpoint hub).acceptor endpoint ≡ false)
unfolding close_conv close_endpoint is_accepted
close_conv-IsValid conv endpoint hub v h =
    let (ks, ss) = erase-entry conv endpoint hub.convs h in
    (
      record {
        convs_differ =
            subst AllDiffer (sym ks) (AllDiffer-erase conv (keys hub.convs) v.convs_differ);
        endpoints_differ =
            AllDiffer-erase endpoint hub.acceptor.remote_endpoints v.endpoints_differ;
        in_step = ss ∙ ap (erase endpoint) v.in_step;
      },
      ap (among conv) ks ∙ erase_same conv (keys hub.convs) v.convs_differ,
      erase_same endpoint hub.acceptor.remote_endpoints v.endpoints_differ,
    )
