-- ===== src/WebHub/Registered.antt =====
-- Which connections the hub's map reaches.
use red_team_coin.Base.{
  ℕ, zero, suc, ◌≡◌, refl, sym, ◌∙◌, ap, inl, inr, Bool, true, false, ◌||◌, none, some, List, [],
  ◌∷◌, ◌++◌, append_assoc, append-nil, arith, if◌then◌else◌, get_elem?, replicate, ◌==◌, ==_iff,
  ltb, lt→ltb, subst, I64, Text, text_eq_iff, Option-cases, Bool-cases,
}
use red_team_coin.Base.Dict.{Dict, lookup, delete, lookup-delete}
use red_team_coin.Pool.{Float64}
use red_team_coin.WebHub.{
  Reply, idle, gone, WebMiner, WebSocketHub, update_at, set_connection, send_to_miner,
  hub_unregister, for_listed, hub_broadcast, hub_shutdown,
}
use red_team_coin.WebHub.Steps.{
  WebServer, drops, broadcasts, drop_connection, put, if_idle, web_step, web_run,
}

-- How many entries of the map lead to a connection.
unfoldable pub entries : ℕ → Dict ℕ → ℕ
entries i [] = 0
entries i ((id, j) ∷ miners) = if j == i then suc (entries i miners) else entries i miners

unfoldable times : {A : Type 0} → ℕ → (A → A) → A → A
times zero f a = a
times (suc n) f a = times n f (f a)

update_at-same :
    (i : ℕ) (c : WebMiner) (cs : List WebMiner) {m : WebMiner}
    → get_elem? cs i ≡ some m
    → get_elem? (update_at i c cs) i ≡ some c
unfolding update_at
update_at-same i c [] h = cc
update_at-same zero c (d ∷ cs) h = refl
update_at-same (suc i) c (d ∷ cs) h = update_at-same i c cs h

update_at-other :
    (i j : ℕ) (c : WebMiner) (cs : List WebMiner)
    → (i == j) ≡ false
    → get_elem? (update_at i c cs) j ≡ get_elem? cs j
unfolding update_at
update_at-other i j c [] h = refl
update_at-other zero zero c (d ∷ cs) h = cc
update_at-other zero (suc j) c (d ∷ cs) h = refl
update_at-other (suc i) zero c (d ∷ cs) h = refl
update_at-other (suc i) (suc j) c (d ∷ cs) h =
    update_at-other i j c cs (ground (arith, ==_iff i j, ==_iff (suc i) (suc j)))

-- The loop applies the function to a connection once for each entry.
for_listed-times :
    (f : WebMiner → WebMiner) (i : ℕ) (miners : Dict ℕ) (cs : List WebMiner) {m : WebMiner}
    → get_elem? cs i ≡ some m
    → get_elem? (for_listed f miners cs) i ≡ some (times (entries i miners) f m)
unfolding for_listed entries times
for_listed-times f i [] cs h = h
for_listed-times f i ((id, j) ∷ miners) cs {m} h = elim (Bool-cases (j == i)) [
  | inr other ↦ elim (Option-cases (get_elem? cs j)) [
    | inl e ↦ rw (e, other, for_listed, entries) (for_listed-times f i miners cs h)
    | inr (c, e) ↦
        rw (e, other, for_listed, entries)
          (for_listed-times f i miners _ (update_at-other j i (f c) cs other ∙ h))
  ]
  | inl hit ↦
      let same : j ≡ i = (==_iff j i).0 hit in
      subst
        (λ k.
          get_elem? (for_listed f ((id, k) ∷ miners) cs) i
          ≡ some (times (entries i ((id, k) ∷ miners)) f m))
        (sym same)
        (rw (h, (==_iff i i).1 refl, for_listed, entries)
          (for_listed-times f i miners _ (update_at-same i (f m) cs h)))
]

times-sends :
    (n : ℕ) (reply : Reply) (m : WebMiner)
    → times n (send_to_miner reply) m ≡ record m { sent = m.sent ++ replicate n reply }
unfolding times send_to_miner
times-sends zero reply m = ap (λ sent. record m { sent = sent }) (sym (append-nil m.sent))
times-sends (suc n) reply m =
    times-sends n reply (send_to_miner reply m)
    ∙ ap (λ sent. record m { sent = sent }) (append_assoc m.sent (reply ∷ []) (replicate n reply))

close : WebMiner → WebMiner
close m = record m { closed = true }

times-close : (n : ℕ) (m : WebMiner) → times (suc n) close m ≡ record m { closed = true }
unfolding times close
times-close zero m = refl
times-close (suc n) m = times-close n (record m { closed = true })

-- Whether the map lists a connection.
unfoldable pub is_listed : ℕ → Dict ℕ → Bool
is_listed i miners = ltb 0 (entries i miners)

times-closed : (n : ℕ) (m : WebMiner) → times n close m ≡ record m { closed = ltb 0 n || m.closed }
unfolding times close
times-closed zero m = refl
times-closed (suc n) m = rw (lt→ltb 0 (suc n) (omega arith)) (times-close n m)

-- A broadcast reaches each connection once for every name under which the hub's map lists it, and
-- no other; the end of the hub closes the connections that are listed under some name, and no
-- other. Nothing else of a connection changes.
pub hub_broadcast-hub_shutdown :
    (reply : Reply) (hub : WebSocketHub) (i : ℕ) {m : WebMiner}
    → get_elem? hub.connections i ≡ some m
    → (get_elem? (hub_broadcast reply hub).connections i
        ≡ some (record m { sent = m.sent ++ replicate (entries i hub.miners) reply }))
      × (get_elem? (hub_shutdown hub).connections i
          ≡ some (record m { closed = is_listed i hub.miners || m.closed }))
unfolding hub_broadcast hub_shutdown is_listed close
hub_broadcast-hub_shutdown reply hub i {m} h = (
  for_listed-times (send_to_miner reply) i hub.miners hub.connections h
      ∙ ap some (times-sends (entries i hub.miners) reply m),
  for_listed-times (λ c. record c { closed = true }) i hub.miners hub.connections h
      ∙ ap some (times-closed (entries i hub.miners) m),
)

module _ (sha : Text → Text) (to_int : Float64 → I64) where
  -- While the hub runs, a miner that has come back on a new connection j, under the id it had on the
  -- old connection i, is forgotten when the old connection ends while it is idle: the hub deletes
  -- the id, whichever connection it leads to. If j is listed under no other id, the next broadcast
  -- does not reach it, though it is as open as before.
  pub drops-broadcasts :
      (s : WebServer) (i j t u : ℕ) (reply : Reply) {old new : WebMiner}
      → s.hub.running ≡ true
      → get_elem? s.hub.connections i ≡ some old
      → get_elem? s.hub.connections j ≡ some new
      → (i == j) ≡ false
      → old.todo ≡ idle
      → lookup old.id s.hub.miners ≡ some j
      → entries j (delete old.id s.hub.miners) ≡ 0
      → (s' : WebServer) × (web_run sha to_int s ((t, drops i) ∷ (u, broadcasts reply) ∷ [])
          ≡ some s')
        × (lookup old.id s'.hub.miners ≡ none)
        × (get_elem? s'.hub.connections j ≡ some new)
  unfolding hub_broadcast times web_run web_step if_idle drop_connection put hub_unregister
      set_connection
  drops-broadcasts s i j t u reply {old} {new} running at_i at_j other free listed unique =
      let ended = record old { todo = gone } in
      let left = update_at i ended s.hub.connections in
      let after = update_at i (record ended { closed = true }) left in
      let kept =
        update_at-other i j _ left other
        ∙ update_at-other i j ended s.hub.connections other
        ∙ at_j in
      let reached =
        for_listed-times (send_to_miner reply) j (delete old.id s.hub.miners) after kept in
      let forgotten = lookup-delete old.id old.id s.hub.miners in
      let dropped : WebServer = record s {
        hub = record s.hub { connections = after; miners = delete old.id s.hub.miners };
      } in
      let left_server = put i ended s in
      let drop_step : web_step sha to_int s (t, drops i) ≡ some dropped =
        rw (at_i, free, web_step, if_idle)
          (ap some (
            ap
              (λ b.
                if b
                then record left_server { hub = hub_unregister i ended left_server.hub }
                else left_server)
              running
            ∙ rw (listed, hub_unregister) refl)) in
      (
        record dropped { hub = hub_broadcast reply dropped.hub },
        rw (drop_step, web_run) refl,
        ground (arith, forgotten, text_eq_iff old.id old.id),
        rw unique at reached,
      )
