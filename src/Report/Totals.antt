-- ===== src/Report/Totals.antt =====
-- The totals and the entries of a report against the miners of the log's snapshot.
use mathlib.Core.List.{Perm}
use red_team_coin.Base.{
  ℕ, ◌+◌, ◌%◌, ◌^◌, ◌<◌, ◌≡◌, refl, sym, ap, ◌∙◌, Bool, List, [], map, arith, length, length-map,
  subst, Text, I64, lt64, if◌then◌else◌,
}
use red_team_coin.Pool.Totals.{sum_over, flag, add_up}
use red_team_coin.Pool.{Float64}
use red_team_coin.Report.{
  FloatOps, MinerLogInfo, LogFile, MinerImpactStats, SystemImpactReport, high_cpu_threshold,
  electricity_cost_per,
}
use red_team_coin.Report.Impact.{
  count_if, collect_miners_from_events, cpu_loop, SortSlice, costs_more, determine_mining_type,
  calculate_power_watts, update_miner_stats, update_report_totals, append_stats, processed,
  finalize_report, new_report, analyze_impact,
}
use red_team_coin.Report.Loop.{process-sum, process-map, process-added, process-kept}
use red_team_coin.Report.Format.{get_compute_impact}
use red_team_coin.Report.Estimates.{
  mined_time, hours_mined, energy, price, peak, cpu_loop-totals, calculate_power_watts-watts,
}
use red_team_coin.Report.Keyed.{perm-map, collect_miners-IsKeyed, get_or_create-miner_id}

-- sort.Slice puts the items in another order.
abbrev pub Permutes : SortSlice → Type 0
Permutes sort_slice =
    (less : MinerImpactStats → MinerImpactStats → Bool) (miners : List MinerImpactStats)
    → Perm (sort_slice less miners) miners

-- An entry's own numbers, its type of mining, and what it has cost.
abbrev pub Numbers : Type 0
Numbers =
    (Text × I64 × I64 × Text) × (Float64 × Float64 × Text) × (I64 × Float64 × Float64 × Float64)

abbrev pub numbers_of : MinerImpactStats → Numbers
numbers_of s = (
  (s.miner_id, s.total_hashes, s.blocks_mined, s.mining_type),
  (s.avg_cpu_usage, s.peak_cpu_usage, s.compute_impact),
  (s.total_mining_time, s.estimated_cpu_hours, s.estimated_kwh, s.estimated_cost),
)

abbrev pub logged_numbers : FloatOps → MinerLogInfo → Numbers
logged_numbers fl m = (
  (m.id, m.total_hashes, m.blocks_mined, determine_mining_type m.gpu_enabled m.hybrid_mode),
  (m.cpu_usage_percent, m.cpu_usage_percent, get_compute_impact fl m.cpu_usage_percent),
  (mined_time fl m, hours_mined fl m, energy fl m, price fl m),
)

-- A report that covers the miners of a snapshot, no more and no fewer.
pub record Covers (fl : FloatOps) (miners : List MinerLogInfo) (report : SystemImpactReport)
    : Type 0 where
  pub counted : report.total_miners ≡ length miners
  pub entries : Perm (map numbers_of report.miner_stats) (map (logged_numbers fl) miners)
  pub hashes_summed : report.total_hashes ≡ sum_over (λ m. m.total_hashes) miners % 2 ^ 64
  pub blocks_summed : report.total_blocks_mined ≡ sum_over (λ m. m.blocks_mined) miners % 2 ^ 64
  pub hours_summed : report.total_mining_hours ≡ add_up fl.add 0 (map (hours_mined fl) miners)
  pub energy_summed : report.total_estimated_kwh ≡ add_up fl.add 0 (map (energy fl) miners)
  pub price_summed : report.total_estimated_cost ≡ add_up fl.add 0 (map (price fl) miners)
  pub usage_averaged : report.avg_system_cpu_usage ≡ (
      if lt64 0 (length miners)
      then fl.div
          (add_up fl.add 0 (map (λ m. m.cpu_usage_percent) miners))
          (fl.of_int (length miners))
      else 0)
  pub peak_found :
      report.peak_system_cpu_usage
      ≡ (if lt64 0 (length miners) then peak fl 0 (map (λ m. m.cpu_usage_percent) miners) else 0)
  pub high_cpu_counted :
      report.miners_with_high_cpu
      ≡ sum_over (λ m. flag (fl.ge m.cpu_usage_percent high_cpu_threshold)) miners % 2 ^ 64
  pub gpu_counted : report.miners_with_gpu ≡ sum_over (λ m. flag m.gpu_enabled) miners % 2 ^ 64
  pub hybrid_counted :
      report.miners_with_hybrid ≡ sum_over (λ m. flag m.hybrid_mode) miners % 2 ^ 64

count_if-flag :
    (test : Bool) (counter : I64)
    → counter < 2 ^ 64
    → count_if test counter ≡ (counter + flag test) % 2 ^ 64
count_if-flag test counter h = ground arith

module _ (fl : FloatOps) (sort_slice : SortSlice) (now : ℕ) (log_data : LogFile) where
  abbrev shown : List MinerLogInfo
  shown = log_data.current_snapshot.miners

  entries-map :
      map numbers_of (processed fl now log_data).report.miner_stats ≡ map (logged_numbers fl) shown
  unfolding processed new_report update_miner_stats
  entries-map =
      process-map fl numbers_of (logged_numbers fl)
        (λ miner_map m keyed.
          ap
            (λ id. (
              (
                id,
                m.total_hashes,
                m.blocks_mined,
                determine_mining_type m.gpu_enabled m.hybrid_mode,
              ),
              (m.cpu_usage_percent, m.cpu_usage_percent, get_compute_impact fl m.cpu_usage_percent),
              (
                mined_time fl m,
                hours_mined fl m,
                fl.div (fl.mul (calculate_power_watts fl m) (hours_mined fl m))
                    0x408f_4000_0000_0000,
                fl.mul
                    (fl.div (fl.mul (calculate_power_watts fl m) (hours_mined fl m))
                      0x408f_4000_0000_0000)
                    electricity_cost_per,
              ),
            ))
            (get_or_create-miner_id m miner_map keyed)
          ∙ rw (calculate_power_watts-watts fl m) refl)
        shown _ (collect_miners-IsKeyed log_data.events)

  -- if report.TotalMiners > 0, in the report.
  abbrev over_all : I64 → Float64 → Float64 → Float64
  over_all n x y = if lt64 0 n then x else y

  usages-map :
      (map (λ s. s.avg_cpu_usage) (processed fl now log_data).report.miner_stats
        ≡ map (λ m. m.cpu_usage_percent) shown)
      × (map (λ s. s.peak_cpu_usage) (processed fl now log_data).report.miner_stats
          ≡ map (λ m. m.cpu_usage_percent) shown)
  unfolding processed new_report update_miner_stats
  usages-map = (
    process-map fl (λ s. s.avg_cpu_usage) (λ m. m.cpu_usage_percent) (λ miner_map m keyed. refl)
        shown _ (collect_miners-IsKeyed log_data.events),
    process-map fl (λ s. s.peak_cpu_usage) (λ m. m.cpu_usage_percent) (λ miner_map m keyed. refl)
        shown _ (collect_miners-IsKeyed log_data.events),
  )

  total :
      (f : MinerLogInfo → ℕ) (var : SystemImpactReport → I64)
      → ((stats : MinerImpactStats) (m : MinerLogInfo) (r : SystemImpactReport)
          → var r < 2 ^ 64
          → var (append_stats stats (update_report_totals fl stats m r)) ≡ (var r + f m) % 2 ^ 64)
      → var (new_report fl now log_data) ≡ 0
      → var (processed fl now log_data).report ≡ sum_over f shown % 2 ^ 64
  unfolding processed
  total f var grows zero_first = omega (
    arith,
    zero_first,
    process-sum fl f var grows shown
        (record {
          miner_map = collect_miners_from_events log_data.events;
          unique_hosts = [];
          unique_ips = [];
          report = new_report fl now log_data;
        })
        (omega (arith, zero_first)),
  )

  -- The report has one entry for each miner of the log's snapshot, with that miner's id, hashes,
  -- blocks, CPU usage and its impact, type of mining, mining time, and the energy and the cost that
  -- follow from them, if sort.Slice only changes the order. Its totals are those of these miners:
  -- hashes, blocks and the numbers of miners by kind modulo 2 ^ 64; hours, energy and cost added in
  -- the order of the snapshot; and the average and the peak of the CPU usage, 0 without a miner. A
  -- miner that only the events name is in none of them.
  pub analyze_impact-Covers :
      Permutes sort_slice → Covers fl shown (analyze_impact fl sort_slice now log_data)
  unfolding analyze_impact processed finalize_report new_report update_report_totals append_stats
      update_miner_stats
  analyze_impact-Covers permutes =
      let stats = (processed fl now log_data).report.miner_stats in
      let counted =
        sym (length-map numbers_of stats)
        ∙ ap (λ xs. length xs) entries-map
        ∙ length-map (logged_numbers fl) shown in
      let unset_average =
        process-kept fl (λ r. r.avg_system_cpu_usage) (λ st m r. refl) shown (_) in
      let unset_peak = process-kept fl (λ r. r.peak_system_cpu_usage) (λ st m r. refl) shown (_) in
      let known = length stats in
      let looped = cpu_loop-totals fl stats 0 0 in
      let (used, peaks) = usages-map in
      record {
        counted = counted;
        entries =
            subst (λ xs. Perm (map numbers_of (sort_slice (costs_more fl) stats)) xs) entries-map
              (perm-map numbers_of (permutes (costs_more fl) stats));
        hours_summed =
            process-added fl (hours_mined fl) (λ r. r.total_mining_hours) (λ miner_map m r. refl)
              shown _;
        energy_summed =
            process-added fl (energy fl) (λ r. r.total_estimated_kwh)
              (λ miner_map m r. rw (calculate_power_watts-watts fl m) refl) shown _;
        price_summed =
            process-added fl (price fl) (λ r. r.total_estimated_cost)
              (λ miner_map m r. rw (calculate_power_watts-watts fl m) refl) shown _;
        usage_averaged =
            ap (over_all known (fl.div (cpu_loop fl stats 0 0).0 (fl.of_int known))) unset_average
            ∙ ap (λ (p : Float64 × Float64). over_all known (fl.div p.0 (fl.of_int known)) 0) looped
            ∙ ap (λ us. over_all known (fl.div (add_up fl.add 0 us) (fl.of_int known)) 0) used
            ∙ ap
                (λ n.
                  over_all n
                    (fl.div (add_up fl.add 0 (map (λ m. m.cpu_usage_percent) shown)) (fl.of_int n))
                    0)
                counted;
        peak_found =
            ap (over_all known (cpu_loop fl stats 0 0).1) unset_peak
            ∙ ap (λ (p : Float64 × Float64). over_all known p.1 0) looped
            ∙ ap (λ us. over_all known (peak fl 0 us) 0) peaks
            ∙ ap (λ n. over_all n (peak fl 0 (map (λ m. m.cpu_usage_percent) shown)) 0) counted;
        hashes_summed = total (λ m. m.total_hashes) (λ r. r.total_hashes) (λ s m r h. refl) refl;
        blocks_summed =
            total (λ m. m.blocks_mined) (λ r. r.total_blocks_mined) (λ s m r h. refl) refl;
        high_cpu_counted =
            total (λ m. flag (fl.ge m.cpu_usage_percent high_cpu_threshold))
              (λ r. r.miners_with_high_cpu)
              (λ s m r h. count_if-flag (fl.ge m.cpu_usage_percent high_cpu_threshold) _ h) refl;
        gpu_counted =
            total (λ m. flag m.gpu_enabled) (λ r. r.miners_with_gpu)
              (λ s m r h. count_if-flag m.gpu_enabled _ h) refl;
        hybrid_counted =
            total (λ m. flag m.hybrid_mode) (λ r. r.miners_with_hybrid)
              (λ s m r h. count_if-flag m.hybrid_mode _ h) refl;
      }
