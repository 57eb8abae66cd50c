-- ===== src/Report/Spans.antt =====
-- When the miners of a whole report were first and last seen.
use mathlib.Core.List.{Perm, map-append}
use red_team_coin.Base.{
  ℕ, ◌≡◌, refl, sym, ap, ◌∙◌, subst, Bool, true, false, not, ◌&&◌, List, [], ◌∷◌, ◌++◌,
  append_assoc, append-nil, map, arith, if◌then◌else◌, Text, text_eq, text_eq_iff,
}
use red_team_coin.Base.Dict.{Dict, lookup, insert, lookup-insert}
use red_team_coin.EventLog.{LogEntry}
use red_team_coin.Report.{FloatOps, MinerLogInfo, LogFile, MinerImpactStats}
use red_team_coin.Report.Impact.{
  Analysis, SortSlice, costs_more, new_stats, collect_miners_from_events, get_or_create_miner_stats,
  update_miner_stats, update_report_totals, append_stats, process_miner, process_snapshot_data,
  processed, new_report, finalize_report, analyze_impact,
}
use red_team_coin.Report.Keyed.{perm-map}
use red_team_coin.Report.Seen.{times_of, earliest, latest, entry_for, lookup-collect_miners}
use red_team_coin.Report.Totals.{Permutes}

abbrev pub has_id : Text → List MinerLogInfo → Bool
has_id id [] = false
has_id id (m ∷ miners) = if text_eq m.id id then true else has_id id miners

-- The ids are not empty, and no two are equal.
abbrev pub distinct_ids : List MinerLogInfo → Bool
distinct_ids [] = true
distinct_ids (m ∷ miners) =
    not (text_eq m.id []) && (not (has_id m.id miners) && distinct_ids miners)

-- A miner with the time when it was first seen, and last.
abbrev pub Span : Type 0
Span = Text × ℕ × ℕ

abbrev pub span_of : MinerImpactStats → Span
span_of s = (s.miner_id, s.first_seen, s.last_seen)

-- The earliest and the latest event of the miner; its registration and its last heartbeat if no
-- event names it.
abbrev pub span_of_times : MinerLogInfo → List ℕ → Span
span_of_times m [] = (m.id, m.registered_at, m.last_heartbeat)
span_of_times m (t ∷ ts) = (m.id, earliest t ts, latest t ts)

abbrev pub logged_span : List LogEntry → MinerLogInfo → Span
logged_span events m = span_of_times m (times_of m.id events)

-- Two maps that agree at the ids of these miners.
abbrev Agree : Dict MinerImpactStats → Dict MinerImpactStats → List MinerLogInfo → Type 0
Agree now before [] = Unit
Agree now before (m ∷ miners) = (lookup m.id now ≡ lookup m.id before) × Agree now before miners

Agree-refl :
    (before : Dict MinerImpactStats) (miners : List MinerLogInfo) → Agree before before miners
Agree-refl before [] = tt
Agree-refl before (m ∷ miners) = (refl, Agree-refl before miners)

Agree-insert :
    (id : Text) (stats : MinerImpactStats) (now before : Dict MinerImpactStats)
    (miners : List MinerLogInfo)
    → has_id id miners ≡ false
    → Agree now before miners
    → Agree (insert id stats now) before miners
Agree-insert id stats now before [] h agree = tt
Agree-insert id stats now before (m ∷ miners) h agree = (
  ground
      (arith, lookup-insert id m.id stats now, text_eq_iff id m.id, text_eq_iff m.id id, agree.0),
  Agree-insert id stats now before miners (ground arith) agree.1,
)

get_or_create-span :
    (m : MinerLogInfo) (now before : Dict MinerImpactStats)
    → lookup m.id now ≡ lookup m.id before
    → span_of (get_or_create_miner_stats m now) ≡ span_of (get_or_create_miner_stats m before)
unfolding get_or_create_miner_stats
get_or_create-span m now before e = rw (e, get_or_create_miner_stats) refl

span_from : Dict MinerImpactStats → MinerLogInfo → Span
span_from before m = span_of (get_or_create_miner_stats m before)

span_from-times :
    (m : MinerLogInfo) (before : Dict MinerImpactStats) (times : List ℕ)
    → lookup m.id before ≡ entry_for m.id times
    → span_from before m ≡ span_of_times m times
unfolding span_from get_or_create_miner_stats new_stats
span_from-times m before [] e = rw (e, get_or_create_miner_stats) refl
span_from-times m before (t ∷ ts) e = rw (e, get_or_create_miner_stats) refl

spans-logged :
    (events : List LogEntry) (miners : List MinerLogInfo)
    → distinct_ids miners ≡ true
    → map (span_from (collect_miners_from_events events)) miners ≡ map (logged_span events) miners
spans-logged events [] h = refl
spans-logged events (m ∷ miners) h =
    let named : text_eq m.id [] ≡ false = ground arith in
    let here =
      span_from-times m (collect_miners_from_events events) (times_of m.id events)
        (lookup-collect_miners m.id events named) in
    cc (here, spans-logged events miners (ground arith))

module _ (fl : FloatOps) where
  process-spans :
      (before : Dict MinerImpactStats) (miners : List MinerLogInfo) (a : Analysis)
      → distinct_ids miners ≡ true
      → Agree a.miner_map before miners
      → map span_of (process_snapshot_data fl miners a).report.miner_stats
        ≡ map span_of a.report.miner_stats ++ map (span_from before) miners
  unfolding process_snapshot_data process_miner append_stats update_report_totals update_miner_stats
      span_from
  process-spans before [] a h agree = sym (append-nil _)
  process-spans before (m ∷ miners) a h agree =
      let stats = update_miner_stats fl m (get_or_create_miner_stats m a.miner_map) in
      let same : span_of (get_or_create_miner_stats m a.miner_map) ≡ span_from before m =
        get_or_create-span m a.miner_map before agree.0 in
      let others : has_id m.id miners ≡ false = ground arith in
      let rest : distinct_ids miners ≡ true = ground arith in
      process-spans before miners (process_miner fl m a) rest
        (Agree-insert m.id stats a.miner_map before miners others agree.1)
      ∙ ap (λ xs. xs ++ map (span_from before) miners)
          (map-append span_of a.report.miner_stats (stats ∷ [])
            ∙ ap (λ x. map span_of a.report.miner_stats ++ x ∷ []) same)
      ∙ append_assoc (map span_of a.report.miner_stats) (span_from before m ∷ [])
          (map (span_from before) miners)

  -- Each miner of the report was first seen at its earliest event and last seen at its latest one,
  -- or at its registration and its last heartbeat if no event names it, where the miners of the
  -- snapshot have distinct ids, none of them empty, and sort.Slice only changes the order.
  pub analyze_impact-spans :
      (sort_slice : SortSlice) (now : ℕ) (log_data : LogFile)
      → Permutes sort_slice
      → distinct_ids log_data.current_snapshot.miners ≡ true
      → Perm
          (map span_of (analyze_impact fl sort_slice now log_data).miner_stats)
          (map (logged_span log_data.events) log_data.current_snapshot.miners)
  unfolding analyze_impact finalize_report processed new_report
  analyze_impact-spans sort_slice now log_data permutes h =
      let miners = log_data.current_snapshot.miners in
      let before = collect_miners_from_events log_data.events in
      let stats = (processed fl now log_data).report.miner_stats in
      let spans : map span_of stats ≡ map (logged_span log_data.events) miners =
        process-spans before miners _ h (Agree-refl before miners)
        ∙ spans-logged log_data.events miners h in
      subst (λ xs. Perm (map span_of (sort_slice (costs_more fl) stats)) xs) spans
        (perm-map span_of (permutes (costs_more fl) stats))
