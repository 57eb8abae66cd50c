-- ===== src/Report/Keyed.antt =====
-- Permutations under map, and the keys of the map of miners.
use mathlib.Core.List.{Perm, Permᴰ}
use mathlib.Core.Logic.{∥∥₁_map}
use red_team_coin.Base.{
  ℕ, ◌≡◌, refl, ap, List, [], ◌∷◌, map, arith, Text, some, if_intro, Option-cases, inl, inr,
  text_eq, text_eq_iff,
}
use red_team_coin.Base.Dict.{Dict, lookup, insert, lookup-insert}
use red_team_coin.EventLog.{LogEntry}
use red_team_coin.Report.{MinerLogInfo, MinerImpactStats}
use red_team_coin.Report.Impact.{
  collect_event, collect_from, collect_miners_from_events, new_stats, seen_at, see_again,
  get_or_create_miner_stats,
}

perm-mapᴰ {ℓ κ} :
    {A : Type ℓ} {B : Type κ} (f : A → B) {xs ys : List A}
    → Permᴰ xs ys
    → Permᴰ (map f xs) (map f ys)
perm-mapᴰ f Permᴰ.nil = Permᴰ.nil
perm-mapᴰ f (Permᴰ.cons e p) = Permᴰ.cons (ap f e) (perm-mapᴰ f p)
perm-mapᴰ f (Permᴰ.swap d e) = Permᴰ.swap (ap f d) (ap f e)
perm-mapᴰ f (Permᴰ.trans p q) = Permᴰ.trans (perm-mapᴰ f p) (perm-mapᴰ f q)

pub perm-map {ℓ κ} :
    {A : Type ℓ} {B : Type κ} (f : A → B) {xs ys : List A} → Perm xs ys → Perm (map f xs) (map f ys)
perm-map f p = ∥∥₁_map p (λ q. perm-mapᴰ f q)

-- The map of miners has each under its own id.
abbrev pub IsKeyed : Dict MinerImpactStats → Type 0
IsKeyed miner_map =
    (id : Text) (stats : MinerImpactStats) → lookup id miner_map ≡ some stats → stats.miner_id ≡ id

pub insert-IsKeyed :
    (key : Text) (stats : MinerImpactStats) (miner_map : Dict MinerImpactStats)
    → stats.miner_id ≡ key
    → IsKeyed miner_map
    → IsKeyed (insert key stats miner_map)
insert-IsKeyed key stats miner_map own keyed id found e =
    ground (arith, lookup-insert key id stats miner_map, text_eq_iff key id, keyed id found)

seen_at-miner_id :
    (id : Text) (timestamp : ℕ) (miner_map : Dict MinerImpactStats)
    → IsKeyed miner_map
    → (seen_at id timestamp (lookup id miner_map)).miner_id ≡ id
unfolding seen_at new_stats see_again
seen_at-miner_id id timestamp miner_map keyed = elim (Option-cases (lookup id miner_map)) [
  | inl e ↦ rw e refl
  | inr (stats, e) ↦ rw e (keyed id stats e)
]

collect_from-IsKeyed :
    (events : List LogEntry) (miner_map : Dict MinerImpactStats)
    → IsKeyed miner_map
    → IsKeyed (collect_from events miner_map)
unfolding collect_from collect_event
collect_from-IsKeyed [] miner_map keyed = keyed
collect_from-IsKeyed (event ∷ events) miner_map keyed =
    collect_from-IsKeyed events (collect_event event miner_map) (
      if_intro IsKeyed (text_eq event.miner_id []) (λ anonymous. keyed)
        (λ named.
          insert-IsKeyed event.miner_id
            (seen_at event.miner_id event.timestamp (lookup event.miner_id miner_map)) miner_map
            (seen_at-miner_id event.miner_id event.timestamp miner_map keyed) keyed))

pub collect_miners-IsKeyed : (events : List LogEntry) → IsKeyed (collect_miners_from_events events)
unfolding collect_miners_from_events lookup
collect_miners-IsKeyed events = collect_from-IsKeyed events [] (λ id stats e. absurd (cc))

pub get_or_create-miner_id :
    (miner : MinerLogInfo) (miner_map : Dict MinerImpactStats)
    → IsKeyed miner_map
    → (get_or_create_miner_stats miner miner_map).miner_id ≡ miner.id
unfolding get_or_create_miner_stats new_stats
get_or_create-miner_id miner miner_map keyed = elim (Option-cases (lookup miner.id miner_map)) [
  | inl e ↦ rw (e, get_or_create_miner_stats) refl
  | inr (stats, e) ↦ rw (e, get_or_create_miner_stats) (keyed miner.id stats e)
]
