-- ===== src/Report/Estimates.antt =====
-- What a miner of the snapshot costs (tools/generate_report.go), from the numbers that it has logged.
use red_team_coin.Base.{◌≡◌, refl, inl, inr, List, [], ◌∷◌, map, if◌then◌else◌, I64, Bool-cases}
use red_team_coin.Pool.{Float64}
use red_team_coin.Pool.Totals.{add_up}
use red_team_coin.Report.{
  FloatOps, MinerLogInfo, MinerImpactStats, avg_cpu_power_watts, avg_gpu_power_watts,
  hybrid_power_watts,
}
use red_team_coin.Report.Impact.{calculate_power_watts, cpu_loop}

module _ (fl : FloatOps) where
  -- A machine with a GPU draws its full power, another one the share that its CPU is in use.
  abbrev pub watts : MinerLogInfo → Float64
  watts m =
      if m.gpu_enabled
      then (if m.hybrid_mode then hybrid_power_watts else avg_gpu_power_watts)
      else fl.mul (if m.hybrid_mode then hybrid_power_watts else avg_cpu_power_watts)
          (fl.div m.cpu_usage_percent 0x4059_0000_0000_0000)

  -- The logged seconds as a Duration, in hours, and the energy and its price at 0.12 for each kWh.
  abbrev pub mined_time : MinerLogInfo → I64
  mined_time m = fl.to_int (fl.mul m.total_mining_time 0x41cd_cd65_0000_0000)

  abbrev pub hours_mined : MinerLogInfo → Float64
  hours_mined m = fl.hours (mined_time m)

  abbrev pub energy : MinerLogInfo → Float64
  energy m = fl.div (fl.mul (watts m) (hours_mined m)) 0x408f_4000_0000_0000

  abbrev pub price : MinerLogInfo → Float64
  price m = fl.mul (energy m) 0x3fbe_b851_eb85_1eb8

  pub calculate_power_watts-watts : (m : MinerLogInfo) → calculate_power_watts fl m ≡ watts m
  unfolding calculate_power_watts
  calculate_power_watts-watts m = elim (Bool-cases m.gpu_enabled) [
    | inl e ↦ rw e refl
    | inr e ↦ rw e refl
  ]

  -- The largest of some numbers and a first one.
  abbrev pub peak : Float64 → List Float64 → Float64
  peak largest [] = largest
  peak largest (x ∷ xs) = peak (if fl.gt x largest then x else largest) xs

  pub cpu_loop-totals :
      (stats : List MinerImpactStats) (total largest : Float64)
      → cpu_loop fl stats total largest ≡ (
        add_up fl.add total (map (λ s. s.avg_cpu_usage) stats),
        peak largest (map (λ s. s.peak_cpu_usage) stats),
      )
  unfolding cpu_loop
  cpu_loop-totals [] total largest = refl
  cpu_loop-totals (s ∷ stats) total largest = cpu_loop-totals stats _ _
