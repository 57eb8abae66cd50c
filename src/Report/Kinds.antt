-- ===== src/Report/Kinds.antt =====
-- The numbers of systems by type of mining and by impact, as the template shows them.
use red_team_coin.Base.{
  ℕ, ◌+◌, ◌%◌, ◌^◌, ◌<◌, ◌≡◌, refl, sym, ◌∙◌, Bool, true, false, not, ◌&&◌, ◌||◌, List, [], ◌∷◌,
  arith, length, Text, text, text_eq, I64,
}
use red_team_coin.Pool.Totals.{sum_over, sum_over-perm, sum_over-map, flag}
use red_team_coin.Pool.{Float64}
use red_team_coin.Report.{FloatOps, MinerLogInfo, LogFile, MinerImpactStats, SystemImpactReport}
use red_team_coin.Report.Format.{get_impact_level}
use red_team_coin.Report.Impact.{SortSlice, determine_mining_type, analyze_impact}
use red_team_coin.Report.Output.{
  ImpactCounts, TemplateData, count_impact, categorize_from, categorize_impact, template_data,
}
use red_team_coin.Report.Totals.{
  Permutes, Numbers, numbers_of, logged_numbers, Covers, analyze_impact-Covers,
}

-- How many entries have a type of mining, and how many a level of impact.
abbrev pub of_type : Text → List MinerImpactStats → ℕ
of_type kind = sum_over (λ s. flag (text_eq s.mining_type kind))

abbrev pub of_level : FloatOps → Text → List MinerImpactStats → ℕ
of_level fl level = sum_over (λ s. flag (text_eq (get_impact_level fl s.avg_cpu_usage) level))

-- Every miner in hybrid mode has its GPU enabled.
abbrev pub gpu_if_hybrid : List MinerLogInfo → Bool
gpu_if_hybrid [] = true
gpu_if_hybrid (m ∷ miners) = (not m.hybrid_mode || m.gpu_enabled) && gpu_if_hybrid miners

abbrev type_in : Numbers → Text
type_in ((id, hashes, blocks, kind), usage, cost) = kind

module _ {fl : FloatOps} {miners : List MinerLogInfo} {report : SystemImpactReport}
    (covers : Covers fl miners report) where
  of_type-logged :
      (kind : Text)
      → of_type kind report.miner_stats
        ≡ sum_over
            (λ m. flag (text_eq (determine_mining_type m.gpu_enabled m.hybrid_mode) kind))
            miners
  of_type-logged kind =
      let is_kind = λ (n : Numbers). flag (text_eq (type_in n) kind) in
      sym (sum_over-map is_kind numbers_of report.miner_stats)
      ∙ sum_over-perm is_kind covers.entries
      ∙ sum_over-map is_kind (logged_numbers fl) miners

-- The three types divide the miners, where hybrid mode needs a GPU.
abbrev typed : Text → MinerLogInfo → ℕ
typed kind m = flag (text_eq (determine_mining_type m.gpu_enabled m.hybrid_mode) kind)

typed-split :
    (gpu hybrid : Bool)
    → (flag gpu + flag (text_eq (determine_mining_type gpu hybrid) (text "CPU Only")) ≡ 1)
      × ((not hybrid || gpu) ≡ true
          → flag (text_eq (determine_mining_type gpu hybrid) (text "CPU+GPU Hybrid")) ≡ flag hybrid)
      × ((not hybrid || gpu) ≡ true
          → flag gpu
            ≡ flag hybrid + flag (text_eq (determine_mining_type gpu hybrid) (text "GPU Only")))
unfolding determine_mining_type text_eq
typed-split true true = (refl, λ h. refl, λ h. refl)
typed-split true false = (refl, λ h. refl, λ h. refl)
typed-split false true = (refl, λ h. absurd (cc), λ h. absurd (cc))
typed-split false false = (refl, λ h. refl, λ h. refl)

cpu_only-sum :
    (miners : List MinerLogInfo)
    → sum_over (λ m. flag m.gpu_enabled) miners + sum_over (typed (text "CPU Only")) miners
      ≡ length miners
cpu_only-sum [] = refl
cpu_only-sum (m ∷ miners) =
    omega (arith, cpu_only-sum miners, (typed-split m.gpu_enabled m.hybrid_mode).0)

hybrid-sum :
    (miners : List MinerLogInfo)
    → gpu_if_hybrid miners ≡ true
    → (sum_over (typed (text "CPU+GPU Hybrid")) miners ≡ sum_over (λ m. flag m.hybrid_mode) miners)
      × (sum_over (λ m. flag m.gpu_enabled) miners
          ≡ sum_over (λ m. flag m.hybrid_mode) miners + sum_over (typed (text "GPU Only")) miners)
hybrid-sum [] h = (refl, refl)
hybrid-sum (m ∷ miners) h =
    let first : (not m.hybrid_mode || m.gpu_enabled) ≡ true = ground arith in
    let rest : gpu_if_hybrid miners ≡ true = ground arith in
    let (cpu, both, gpu) = typed-split m.gpu_enabled m.hybrid_mode in
    let (sum_both, sum_gpu) = hybrid-sum miners rest in
    (omega (arith, both first, sum_both), omega (arith, gpu first, sum_gpu))

module _ (fl : FloatOps) where
  categorize-sum :
      (f : Float64 → ℕ) (var : ImpactCounts → I64)
      → ((usage : Float64) (c : ImpactCounts)
          → var c < 2 ^ 64
          → var (count_impact fl usage c) ≡ (var c + f usage) % 2 ^ 64)
      → (miners : List MinerImpactStats) (c : ImpactCounts) → var c < 2 ^ 64
      → var (categorize_from fl miners c)
        ≡ (var c + sum_over (λ s. f s.avg_cpu_usage) miners) % 2 ^ 64
  unfolding categorize_from
  categorize-sum f var grows [] c h = omega arith
  categorize-sum f var grows (s ∷ miners) c h =
      let one = grows s.avg_cpu_usage c h in
      omega (
        arith,
        one,
        categorize-sum f var grows miners (count_impact fl s.avg_cpu_usage c) (omega (arith, one)),
      )

  -- What the template shows of the kinds of systems.
  pub record Shows (report : SystemImpactReport) (shown : TemplateData) : Type 0 where
    pub critical : shown.counts.critical ≡ of_level fl (text "CRITICAL") report.miner_stats % 2 ^ 64
    pub high : shown.counts.high ≡ of_level fl (text "HIGH") report.miner_stats % 2 ^ 64
    pub moderate : shown.counts.moderate ≡ of_level fl (text "MODERATE") report.miner_stats % 2 ^ 64
    pub low : shown.counts.low ≡ of_level fl (text "LOW") report.miner_stats % 2 ^ 64
    pub cpu_only : shown.cpu_only_systems ≡ of_type (text "CPU Only") report.miner_stats % 2 ^ 64
    pub gpu_only :
        shown.gpu_accelerated_systems ≡ of_type (text "GPU Only") report.miner_stats % 2 ^ 64
    pub hybrid :
        report.miners_with_hybrid ≡ of_type (text "CPU+GPU Hybrid") report.miner_stats % 2 ^ 64

  level-critical :
      (usage : Float64) (c : ImpactCounts)
      → c.critical < 2 ^ 64
      → (count_impact fl usage c).critical
        ≡ (c.critical + flag (text_eq (get_impact_level fl usage) (text "CRITICAL"))) % 2 ^ 64
  unfolding count_impact get_impact_level text_eq
  level-critical usage c h = ground arith

  level-high :
      (usage : Float64) (c : ImpactCounts)
      → c.high < 2 ^ 64
      → (count_impact fl usage c).high
        ≡ (c.high + flag (text_eq (get_impact_level fl usage) (text "HIGH"))) % 2 ^ 64
  unfolding count_impact get_impact_level text_eq
  level-high usage c h = ground arith

  level-moderate :
      (usage : Float64) (c : ImpactCounts)
      → c.moderate < 2 ^ 64
      → (count_impact fl usage c).moderate
        ≡ (c.moderate + flag (text_eq (get_impact_level fl usage) (text "MODERATE"))) % 2 ^ 64
  unfolding count_impact get_impact_level text_eq
  level-moderate usage c h = ground arith

  level-low :
      (usage : Float64) (c : ImpactCounts)
      → c.low < 2 ^ 64
      → (count_impact fl usage c).low
        ≡ (c.low + flag (text_eq (get_impact_level fl usage) (text "LOW"))) % 2 ^ 64
  unfolding count_impact get_impact_level text_eq
  level-low usage c h = ground arith

  -- The template's numbers of systems by impact and by type of mining are the numbers of entries of
  -- that level and of that type, modulo 2 ^ 64, if sort.Slice only changes the order and every miner
  -- in hybrid mode has its GPU enabled.
  pub template_data-Shows :
      (sort_slice : SortSlice) (now : ℕ) (log_data : LogFile)
      → Permutes sort_slice
      → gpu_if_hybrid log_data.current_snapshot.miners ≡ true
      → Shows
          (analyze_impact fl sort_slice now log_data)
          (template_data fl (analyze_impact fl sort_slice now log_data))
  unfolding template_data categorize_impact
  template_data-Shows sort_slice now log_data permutes h =
      let miners = log_data.current_snapshot.miners in
      let report = analyze_impact fl sort_slice now log_data in
      let covers = analyze_impact-Covers fl sort_slice now log_data permutes in
      let (same_hybrid, gpu_split) = hybrid-sum miners h in
      let none_yet : ImpactCounts = record { critical = 0; high = 0; moderate = 0; low = 0 } in
      let at_level =
        λ (level : Text) (usage : Float64). flag (text_eq (get_impact_level fl usage) level) in
      record {
        critical = omega (
          arith,
          categorize-sum (at_level (text "CRITICAL")) (λ c. c.critical) level-critical
              report.miner_stats none_yet (omega arith),
        );
        high = omega (
          arith,
          categorize-sum (at_level (text "HIGH")) (λ c. c.high) level-high report.miner_stats
              none_yet (omega arith),
        );
        moderate = omega (
          arith,
          categorize-sum (at_level (text "MODERATE")) (λ c. c.moderate) level-moderate
              report.miner_stats none_yet (omega arith),
        );
        low = omega (
          arith,
          categorize-sum (at_level (text "LOW")) (λ c. c.low) level-low report.miner_stats none_yet
              (omega arith),
        );
        cpu_only = omega (
          arith,
          covers.counted,
          covers.gpu_counted,
          cpu_only-sum miners,
          of_type-logged covers (text "CPU Only"),
        );
        gpu_only = omega (
          arith,
          covers.gpu_counted,
          covers.hybrid_counted,
          gpu_split,
          of_type-logged covers (text "GPU Only"),
        );
        hybrid = omega (
          arith,
          covers.hybrid_counted,
          same_hybrid,
          of_type-logged covers (text "CPU+GPU Hybrid"),
        );
      }
