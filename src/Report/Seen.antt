-- ===== src/Report/Seen.antt =====
-- When a miner was first and last seen: the times of its events.
use red_team_coin.Base.{
  ℕ, ◌≡◌, refl, ap, ◌∙◌, false, Option, none, some, List, [], ◌∷◌, arith, ltb, if◌then◌else◌,
  Bool-cases, inl, inr, Text, text_eq, text_eq_iff,
}
use red_team_coin.Base.Dict.{Dict, lookup, lookup-insert}
use red_team_coin.EventLog.{LogEntry}
use red_team_coin.Report.{MinerImpactStats}
use red_team_coin.Report.Impact.{
  new_stats, see_again, seen_at, collect_event, collect_from, collect_miners_from_events,
}

-- The times of the events that name a miner.
abbrev pub times_of : Text → List LogEntry → List ℕ
times_of id [] = []
times_of id (event ∷ events) =
    if text_eq event.miner_id id then event.timestamp ∷ times_of id events else times_of id events

abbrev pub earliest : ℕ → List ℕ → ℕ
earliest t [] = t
earliest t (u ∷ us) = earliest (if ltb u t then u else t) us

abbrev pub latest : ℕ → List ℕ → ℕ
latest t [] = t
latest t (u ∷ us) = latest (if ltb t u then u else t) us

-- The entry of a miner that has these events.
abbrev pub entry_for : Text → List ℕ → Option MinerImpactStats
entry_for id [] = none
entry_for id (t ∷ ts) = some (new_stats id (earliest t ts) (latest t ts))

-- The entry from the events still to come.
see_all : Text → Option MinerImpactStats → List ℕ → Option MinerImpactStats
see_all id found [] = found
see_all id found (t ∷ ts) = see_all id (some (seen_at id t found)) ts

see_all-some :
    (id : Text) (a b : ℕ) (ts : List ℕ)
    → see_all id (some (new_stats id a b)) ts ≡ some (new_stats id (earliest a ts) (latest b ts))
unfolding see_all seen_at see_again new_stats
see_all-some id a b [] = refl
see_all-some id a b (t ∷ ts) =
    see_all-some id (if ltb t a then t else a) (if ltb b t then t else b) ts

see_all-none : (id : Text) (ts : List ℕ) → see_all id none ts ≡ entry_for id ts
unfolding see_all seen_at
see_all-none id [] = refl
see_all-none id (t ∷ ts) = see_all-some id t t ts

lookup-collect_event :
    (id : Text) (event : LogEntry) (miner_map : Dict MinerImpactStats)
    → text_eq id [] ≡ false
    → lookup id (collect_event event miner_map) ≡ (
        if text_eq event.miner_id id
        then some (seen_at id event.timestamp (lookup id miner_map))
        else lookup id miner_map)
unfolding collect_event
lookup-collect_event id event miner_map named =
    let key = event.miner_id in
    let stats = seen_at key event.timestamp (lookup key miner_map) in
    ground (arith, lookup-insert key id stats miner_map, text_eq_iff key id)

lookup-collect_from :
    (id : Text) (events : List LogEntry) (miner_map : Dict MinerImpactStats)
    → text_eq id [] ≡ false
    → lookup id (collect_from events miner_map)
      ≡ see_all id (lookup id miner_map) (times_of id events)
unfolding collect_from collect_event see_all
lookup-collect_from id [] miner_map named = refl
lookup-collect_from id (event ∷ events) miner_map named =
    let here = lookup-collect_event id event miner_map named in
    lookup-collect_from id events (collect_event event miner_map) named
    ∙ elim (Bool-cases (text_eq event.miner_id id)) [
      | inl hit ↦ rw hit (ap (λ o. see_all id o (times_of id events)) (rw hit at here))
      | inr miss ↦ rw miss (ap (λ o. see_all id o (times_of id events)) (rw miss at here))
    ]

-- The map has an entry for exactly the miners that some event names, and it says when the earliest
-- and the latest of the miner's events were, in whatever order the events stand.
pub lookup-collect_miners :
    (id : Text) (events : List LogEntry)
    → text_eq id [] ≡ false
    → lookup id (collect_miners_from_events events) ≡ entry_for id (times_of id events)
unfolding collect_miners_from_events lookup
lookup-collect_miners id events named =
    lookup-collect_from id events [] named ∙ see_all-none id (times_of id events)
