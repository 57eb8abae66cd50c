-- ===== src/Report/Loop.antt =====
-- What the loop of processSnapshotData (tools/generate_report.go) makes of the report's variables.
use mathlib.Core.List.{map-append}
use red_team_coin.Base.{
  ℕ, ◌+◌, ◌%◌, ◌^◌, ◌<◌, ◌≡◌, refl, sym, ap, ◌∙◌, List, [], ◌∷◌, ◌++◌, append_assoc, append-nil,
  map, arith, I64,
}
use red_team_coin.Base.Dict.{Dict}
use red_team_coin.Pool.Totals.{sum_over, add_up}
use red_team_coin.Pool.{Float64}
use red_team_coin.Report.{FloatOps, MinerLogInfo, MinerImpactStats, SystemImpactReport}
use red_team_coin.Report.Impact.{
  Analysis, update_miner_stats, update_report_totals, append_stats, process_miner,
  get_or_create_miner_stats, process_snapshot_data,
}
use red_team_coin.Report.Keyed.{IsKeyed, insert-IsKeyed, get_or_create-miner_id}

module _ (fl : FloatOps) where
  -- A variable of the report that grows by one quantity for each miner.
  pub process-sum :
      (f : MinerLogInfo → ℕ) (var : SystemImpactReport → I64)
      → ((stats : MinerImpactStats) (m : MinerLogInfo) (r : SystemImpactReport)
          → var r < 2 ^ 64
          → var (append_stats stats (update_report_totals fl stats m r)) ≡ (var r + f m) % 2 ^ 64)
      → (miners : List MinerLogInfo) (a : Analysis) → var a.report < 2 ^ 64
      → var (process_snapshot_data fl miners a).report ≡ (var a.report + sum_over f miners) % 2 ^ 64
  unfolding process_snapshot_data process_miner
  process-sum f var grows [] a h = omega arith
  process-sum f var grows (m ∷ miners) a h =
      let one =
        grows (update_miner_stats fl m (get_or_create_miner_stats m a.miner_map)) m a.report h in
      omega (arith, process-sum f var grows miners (process_miner fl m a) (omega (arith, one)), one)

  -- What the entries hold of the log's own numbers.
  pub process-map {ℓ} :
      {X : Type ℓ} (f : MinerImpactStats → X) (g : MinerLogInfo → X)
      → ((miner_map : Dict MinerImpactStats) (m : MinerLogInfo)
          → IsKeyed miner_map
          → f (update_miner_stats fl m (get_or_create_miner_stats m miner_map)) ≡ g m)
      → (miners : List MinerLogInfo) (a : Analysis) → IsKeyed a.miner_map
      → map f (process_snapshot_data fl miners a).report.miner_stats
        ≡ map f a.report.miner_stats ++ map g miners
  unfolding process_snapshot_data process_miner append_stats update_report_totals update_miner_stats
  process-map f g same [] a keyed = sym (append-nil _)
  process-map f g same (m ∷ miners) a keyed =
      let stats = update_miner_stats fl m (get_or_create_miner_stats m a.miner_map) in
      process-map f g same miners (process_miner fl m a)
        (insert-IsKeyed m.id stats a.miner_map (get_or_create-miner_id m a.miner_map keyed) keyed)
      ∙ ap (λ xs. xs ++ map g miners)
          (map-append f a.report.miner_stats (stats ∷ [])
            ∙ ap (λ x. map f a.report.miner_stats ++ x ∷ []) (same a.miner_map m keyed))
      ∙ append_assoc (map f a.report.miner_stats) (g m ∷ []) (map g miners)

module _ (fl : FloatOps) where
  -- A variable of the report to which a float64 is added for each miner.
  pub process-added :
      (g : MinerLogInfo → Float64) (var : SystemImpactReport → Float64)
      → ((miner_map : Dict MinerImpactStats) (m : MinerLogInfo) (r : SystemImpactReport)
          → let stats = update_miner_stats fl m (get_or_create_miner_stats m miner_map) in
            var (append_stats stats (update_report_totals fl stats m r)) ≡ fl.add (var r) (g m))
      → (miners : List MinerLogInfo) (a : Analysis)
      → var (process_snapshot_data fl miners a).report ≡ add_up fl.add (var a.report) (map g miners)
  unfolding process_snapshot_data process_miner
  process-added g var grows [] a = refl
  process-added g var grows (m ∷ miners) a =
      process-added g var grows miners (process_miner fl m a)
      ∙ ap (λ x. add_up fl.add x (map g miners)) (grows a.miner_map m a.report)

  -- A variable of the report that no miner changes.
  pub process-kept :
      (var : SystemImpactReport → Float64)
      → ((stats : MinerImpactStats) (m : MinerLogInfo) (r : SystemImpactReport)
          → var (append_stats stats (update_report_totals fl stats m r)) ≡ var r)
      → (miners : List MinerLogInfo) (a : Analysis)
      → var (process_snapshot_data fl miners a).report ≡ var a.report
  unfolding process_snapshot_data process_miner
  process-kept var keeps [] a = refl
  process-kept var keeps (m ∷ miners) a =
      process-kept var keeps miners (process_miner fl m a) ∙ keeps _ m a.report
