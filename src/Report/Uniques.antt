-- ===== src/Report/Uniques.antt =====
-- The numbers of distinct hosts and addresses in a report.
use red_team_coin.Base.{
  ℕ, ◌+◌, ◌≡◌, refl, sym, ap, ◌∙◌, Bool, true, false, none, some, List, [], ◌∷◌, ◌++◌, map, arith,
  if◌then◌else◌, length, Text, text_eq, text_eq_iff,
}
use red_team_coin.Base.Dict.{lookup, insert, lookup-insert}
use red_team_coin.Report.{FloatOps, MinerLogInfo, LogFile}
use red_team_coin.Report.Impact.{
  TextSet, Analysis, SortSlice, track_hosts, track_ips, process_miner, process_snapshot_data,
  processed, finalize_report, analyze_impact,
}

abbrev pub was_seen : Text → List Text → Bool
was_seen name [] = false
was_seen name (seen ∷ rest) = if text_eq seen name then true else was_seen name rest

-- How many of the names are new, each counted where it first stands.
abbrev pub count_new : List Text → List Text → ℕ
count_new seen [] = 0
count_new seen (name ∷ names) =
    if was_seen name seen then count_new (name ∷ seen) names else 1 + count_new (name ∷ seen) names

abbrev pub distinct : List Text → ℕ
distinct = count_new []

-- The addresses of a miner that are no empty texts.
abbrev pub addresses : MinerLogInfo → List Text
addresses m =
    (if text_eq m.ip_address [] then [] else m.ip_address ∷ [])
    ++ (if text_eq m.ip_address_actual [] then [] else m.ip_address_actual ∷ [])

abbrev pub all_addresses : List MinerLogInfo → List Text
all_addresses [] = []
all_addresses (m ∷ miners) = addresses m ++ all_addresses miners

has_key : Text → TextSet → Bool
has_key k m = elim (lookup k m) [ none ↦ false | some b ↦ true ]

-- A set and the names that were put in it.
Holds : TextSet → List Text → Type 0
Holds set seen = (name : Text) → has_key name set ≡ was_seen name seen

insert_all : List Text → TextSet → TextSet
insert_all [] set = set
insert_all (name ∷ names) set = insert_all names (insert name true set)

length-insert :
    (name : Text) (set : TextSet)
    → length (insert name true set) ≡ (if has_key name set then length set else 1 + length set)
unfolding insert lookup has_key
length-insert name [] = refl
length-insert name ((j, b) ∷ set) = ground (arith, length-insert name set)

insert-Holds :
    (name : Text) (set : TextSet) (seen : List Text)
    → Holds set seen
    → Holds (insert name true set) (name ∷ seen)
unfolding has_key Holds
insert-Holds name set seen h other = ground (arith, lookup-insert name other true set, h other)

length-insert_all :
    (names : List Text) (set : TextSet) (seen : List Text)
    → Holds set seen
    → length (insert_all names set) ≡ length set + count_new seen names
unfolding insert_all Holds
length-insert_all [] set seen h = omega arith
length-insert_all (name ∷ names) set seen h = ground (
  arith,
  h name,
  length-insert name set,
  length-insert_all names (insert name true set) (name ∷ seen) (insert-Holds name set seen h),
)

insert_all-append :
    (xs ys : List Text) (set : TextSet)
    → insert_all (xs ++ ys) set ≡ insert_all ys (insert_all xs set)
unfolding insert_all
insert_all-append [] ys set = refl
insert_all-append (x ∷ xs) ys set = insert_all-append xs ys (insert x true set)

insert-insert :
    (name : Text) (set : TextSet) → insert name true (insert name true set) ≡ insert name true set
unfolding insert
insert-insert name [] = ground (arith, text_eq_iff name name)
insert-insert name ((j, b) ∷ set) =
    ground (arith, text_eq_iff name name, text_eq_iff j name, insert-insert name set)

track_ips-insert_all :
    (m : MinerLogInfo) (set : TextSet) → track_ips m set ≡ insert_all (addresses m) set
unfolding track_ips insert_all
track_ips-insert_all m set = ground (
  arith,
  text_eq_iff m.ip_address_actual m.ip_address,
  text_eq_iff m.ip_address_actual [],
  text_eq_iff m.ip_address [],
  insert-insert m.ip_address set,
)

length-distinct : (names : List Text) → length (insert_all names []) ≡ distinct names
unfolding Holds has_key lookup
length-distinct names = omega (arith, length-insert_all names [] [] (λ name. refl))

module _ (fl : FloatOps) where
  process-hosts :
      (miners : List MinerLogInfo) (a : Analysis)
      → (process_snapshot_data fl miners a).unique_hosts
        ≡ insert_all (map (λ m. m.hostname) miners) a.unique_hosts
  unfolding process_snapshot_data process_miner track_hosts insert_all
  process-hosts [] a = refl
  process-hosts (m ∷ miners) a = process-hosts miners (process_miner fl m a)

  process-ips :
      (miners : List MinerLogInfo) (a : Analysis)
      → (process_snapshot_data fl miners a).unique_ips
        ≡ insert_all (all_addresses miners) a.unique_ips
  unfolding process_snapshot_data process_miner insert_all
  process-ips [] a = refl
  process-ips (m ∷ miners) a =
      process-ips miners (process_miner fl m a)
      ∙ ap (insert_all (all_addresses miners)) (track_ips-insert_all m a.unique_ips)
      ∙ sym (insert_all-append (addresses m) (all_addresses miners) a.unique_ips)

  -- The report's numbers of hosts and of addresses are those of the distinct host names, and of the
  -- distinct addresses that are not empty, reported or actual, of the snapshot's miners.
  pub analyze_impact-uniques :
      (sort_slice : SortSlice) (now : ℕ) (log_data : LogFile)
      → ((analyze_impact fl sort_slice now log_data).unique_hosts
          ≡ distinct (map (λ m. m.hostname) log_data.current_snapshot.miners))
        × ((analyze_impact fl sort_slice now log_data).unique_ips
            ≡ distinct (all_addresses log_data.current_snapshot.miners))
  unfolding analyze_impact finalize_report processed
  analyze_impact-uniques sort_slice now log_data =
      let miners = log_data.current_snapshot.miners in
      (
        ap length (process-hosts miners _) ∙ length-distinct (map (λ m. m.hostname) miners),
        ap length (process-ips miners _) ∙ length-distinct (all_addresses miners),
      )
