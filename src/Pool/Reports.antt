-- ===== src/Pool/Reports.antt =====
-- What the statistics of the pool report, whatever order the runtime visits the miners in.
use mathlib.Core.List.{Perm}
use red_team_coin.Base.{
  ℕ, ◌%◌, ◌^◌, ◌≡◌, refl, sym, ap, ◌∙◌, List, [], ◌∷◌, ◌++◌, append_assoc, append-nil, map, I64,
  length, length-map, lt64, if◌then◌else◌, Text,
}
use red_team_coin.Base.Dict.{Dict}
use red_team_coin.Pool.{MinerRecord, MiningPool}
use red_team_coin.Pool.Statistics.{
  FloatOps, PoolStats, TotalCpuStats, is_active, for_miners, count_active, get_active_miner_count,
  pool_body, pool_totals, get_pool_stats, to_cpu_stats, cpu_body, cpu_totals, get_cpu_stats,
  average,
}
use red_team_coin.Pool.Totals.{
  sum_over, if_active, one, flag, for_miners-total, add_if-active, add_if-flag, add_up,
  active_usages, for_miners-usage,
}

module _ (fl : FloatOps) (now : ℕ) {visits miners : List MinerRecord} (p : Perm visits miners) where
  pool_totals-hash_rate :
      (pool_totals fl now visits).hash_rate
      ≡ sum_over (if_active now (λ m. m.hash_rate)) miners % 2 ^ 64
  unfolding pool_totals pool_body
  pool_totals-hash_rate =
      for_miners-total (pool_body fl now) (if_active now (λ m. m.hash_rate)) (λ t. t.hash_rate)
        (λ m t h. add_if-active now (λ m. m.hash_rate) m t.hash_rate h) _ refl p

  pool_totals-active_miners :
      (pool_totals fl now visits).active_miners ≡ sum_over (if_active now one) miners % 2 ^ 64
  unfolding pool_totals pool_body
  pool_totals-active_miners =
      for_miners-total (pool_body fl now) (if_active now one) (λ t. t.active_miners)
        (λ m t h. add_if-active now one m t.active_miners h) _ refl p

  pool_totals-blocks_mined :
      (pool_totals fl now visits).blocks_mined ≡ sum_over (λ m. m.blocks_mined) miners % 2 ^ 64
  unfolding pool_totals pool_body
  pool_totals-blocks_mined =
      for_miners-total (pool_body fl now) (λ m. m.blocks_mined) (λ t. t.blocks_mined)
        (λ m t h. refl) _ refl p

  pool_totals-hashes :
      (pool_totals fl now visits).hashes ≡ sum_over (λ m. m.total_hashes) miners % 2 ^ 64
  unfolding pool_totals pool_body
  pool_totals-hashes =
      for_miners-total (pool_body fl now) (λ m. m.total_hashes) (λ t. t.hashes) (λ m t h. refl) _
        refl p

  pool_totals-mining_time :
      (pool_totals fl now visits).mining_time ≡ sum_over (λ m. m.total_mining_time) miners % 2 ^ 64
  unfolding pool_totals pool_body
  pool_totals-mining_time =
      for_miners-total (pool_body fl now) (λ m. m.total_mining_time) (λ t. t.mining_time)
        (λ m t h. refl) _ refl p

module _ (fl : FloatOps) (format : ℕ → Text) (now : ℕ) {visits miners : List MinerRecord}
    (p : Perm visits miners) where
  cpu_totals-hash_rate :
      (cpu_totals fl format now visits).hash_rate
      ≡ sum_over (if_active now (λ m. m.hash_rate)) miners % 2 ^ 64
  unfolding cpu_totals cpu_body
  cpu_totals-hash_rate =
      for_miners-total (cpu_body fl format now) (if_active now (λ m. m.hash_rate))
        (λ t. t.hash_rate) (λ m t h. add_if-active now (λ m. m.hash_rate) m t.hash_rate h) _ refl p

  cpu_totals-gpu_hash_rate :
      (cpu_totals fl format now visits).gpu_hash_rate
      ≡ sum_over (if_active now (λ m. m.gpu_hash_rate)) miners % 2 ^ 64
  unfolding cpu_totals cpu_body
  cpu_totals-gpu_hash_rate =
      for_miners-total (cpu_body fl format now) (if_active now (λ m. m.gpu_hash_rate))
        (λ t. t.gpu_hash_rate)
        (λ m t h. add_if-active now (λ m. m.gpu_hash_rate) m t.gpu_hash_rate h) _ refl p

  cpu_totals-active :
      (cpu_totals fl format now visits).active ≡ sum_over (if_active now one) miners % 2 ^ 64
  unfolding cpu_totals cpu_body
  cpu_totals-active =
      for_miners-total (cpu_body fl format now) (if_active now one) (λ t. t.active)
        (λ m t h. add_if-active now one m t.active h) _ refl p

  cpu_totals-gpu_enabled :
      (cpu_totals fl format now visits).gpu_enabled
      ≡ sum_over (if_active now (λ m. flag m.gpu_enabled)) miners % 2 ^ 64
  unfolding cpu_totals cpu_body
  cpu_totals-gpu_enabled =
      for_miners-total (cpu_body fl format now) (if_active now (λ m. flag m.gpu_enabled))
        (λ t. t.gpu_enabled) (λ m t h. add_if-flag (is_active now m) m.gpu_enabled t.gpu_enabled h)
        _ refl p

  cpu_totals-hybrid :
      (cpu_totals fl format now visits).hybrid
      ≡ sum_over (if_active now (λ m. flag m.hybrid_mode)) miners % 2 ^ 64
  unfolding cpu_totals cpu_body
  cpu_totals-hybrid =
      for_miners-total (cpu_body fl format now) (if_active now (λ m. flag m.hybrid_mode))
        (λ t. t.hybrid) (λ m t h. add_if-flag (is_active now m) m.hybrid_mode t.hybrid h) _ refl p

  cpu_totals-hashes :
      (cpu_totals fl format now visits).hashes ≡ sum_over (λ m. m.total_hashes) miners % 2 ^ 64
  unfolding cpu_totals cpu_body
  cpu_totals-hashes =
      for_miners-total (cpu_body fl format now) (λ m. m.total_hashes) (λ t. t.hashes)
        (λ m t h. refl) _ refl p

  cpu_totals-time :
      (cpu_totals fl format now visits).time ≡ sum_over (λ m. m.total_mining_time) miners % 2 ^ 64
  unfolding cpu_totals cpu_body
  cpu_totals-time =
      for_miners-total (cpu_body fl format now) (λ m. m.total_mining_time) (λ t. t.time)
        (λ m t h. refl) _ refl p

get_active_miner_count-sum :
    (now : ℕ) {visits miners : List MinerRecord}
    → Perm visits miners
    → get_active_miner_count now visits ≡ sum_over (if_active now one) miners % 2 ^ 64
unfolding get_active_miner_count count_active
get_active_miner_count-sum now p =
    for_miners-total (count_active now) (if_active now one) (λ t. t)
      (λ m t h. add_if-active now one m t h) 0 refl p

-- The order of the visits is that of the entries.
for_miners-append {ℓ κ} :
    {S : Type ℓ} {A : Type κ} (body : MinerRecord → S → S) (out : S → List A) (g : MinerRecord → A)
    → ((m : MinerRecord) (s : S) → out (body m s) ≡ out s ++ g m ∷ [])
    → (visits : List MinerRecord) (s : S) → out (for_miners body visits s) ≡ out s ++ map g visits
unfolding for_miners
for_miners-append body out g grows [] s = sym (append-nil (out s))
for_miners-append body out g grows (m ∷ visits) s =
    for_miners-append body out g grows visits (body m s)
    ∙ ap (λ xs. xs ++ map g visits) (grows m s)
    ∙ append_assoc (out s) (g m ∷ []) (map g visits)

abbrev pub records : Dict MinerRecord → List MinerRecord
records miners = map (λ e. e.1) miners

-- The totals over the miners that the three functions report, with float64 added in the order of each
-- loop's own visits.
pub record Reports (fl : FloatOps) (now : ℕ) (miners for_stats for_cpu : List MinerRecord)
    (stats : PoolStats) (cpu : TotalCpuStats) (count : I64) : Type 0 where
  pub miners_in_stats : stats.total_miners ≡ length miners
  pub miners_in_cpu : cpu.total_miners ≡ length miners
  pub active_counted : count ≡ sum_over (if_active now one) miners % 2 ^ 64
  pub active_in_stats : stats.active_miners ≡ count
  pub active_in_cpu : cpu.active_miners ≡ count
  pub hash_rate_summed :
      stats.total_hash_rate ≡ sum_over (if_active now (λ m. m.hash_rate)) miners % 2 ^ 64
  pub hash_rate_in_cpu : cpu.total_hash_rate ≡ stats.total_hash_rate
  pub hashes_summed : stats.total_hashes ≡ sum_over (λ m. m.total_hashes) miners % 2 ^ 64
  pub hashes_in_cpu : cpu.total_hashes ≡ stats.total_hashes
  pub blocks_summed : stats.total_blocks_mined ≡ sum_over (λ m. m.blocks_mined) miners % 2 ^ 64
  pub mining_time_summed :
      stats.total_mining_time ≡ fl.seconds (sum_over (λ m. m.total_mining_time) miners % 2 ^ 64)
  pub mining_time_in_cpu : cpu.total_mining_time ≡ stats.total_mining_time
  pub mining_hours_summed :
      cpu.total_mining_hours ≡ fl.hours (sum_over (λ m. m.total_mining_time) miners % 2 ^ 64)
  pub usage_in_stats : stats.total_cpu_usage ≡ add_up fl.add 0 (active_usages now for_stats)
  pub usage_in_cpu : cpu.total_cpu_usage ≡ add_up fl.add 0 (active_usages now for_cpu)
  pub average_in_stats :
      stats.avg_cpu_usage
      ≡ (if lt64 0 count then fl.div stats.total_cpu_usage (fl.of_int count) else 0)
  pub average_in_cpu :
      cpu.average_cpu_usage
      ≡ (if lt64 0 count then fl.div cpu.total_cpu_usage (fl.of_int count) else 0)
  pub gpu_hash_rate_summed :
      cpu.total_gpu_hash_rate ≡ sum_over (if_active now (λ m. m.gpu_hash_rate)) miners % 2 ^ 64
  pub gpu_enabled_counted :
      cpu.gpu_enabled_miners ≡ sum_over (if_active now (λ m. flag m.gpu_enabled)) miners % 2 ^ 64
  pub hybrid_counted :
      cpu.hybrid_miners ≡ sum_over (if_active now (λ m. flag m.hybrid_mode)) miners % 2 ^ 64

-- GetActiveMinerCount, GetPoolStats and GetCPUStats report the same number of active miners, and the
-- last two the number of miners, the same hash rate, hashes and mining time: sums over the pool's
-- miners modulo 2 ^ 64, in whatever order each of them visits the map, as are the blocks mined and the
-- numbers on GPUs that only one of them reports. The CPU usage of each of the two is that of its
-- active miners, added in the order of its own visits, and its average is that total divided by the
-- number of active miners, or 0 if there is none (read as an int64). The entries of GetCPUStats are
-- those of the miners, in the order of its visits.
pub statistics-Reports :
    (fl : FloatOps) (format : ℕ → Text) (now : ℕ) (pool : MiningPool)
    {for_stats for_cpu for_count : List MinerRecord}
    → Perm for_stats (records pool.miners)
    → Perm for_cpu (records pool.miners)
    → Perm for_count (records pool.miners)
    → Reports fl now
        (records pool.miners)
        for_stats
        for_cpu
        (get_pool_stats fl now for_stats pool)
        (get_cpu_stats fl format now for_cpu pool)
        (get_active_miner_count now for_count)
      × ((get_cpu_stats fl format now for_cpu pool).miner_stats
          ≡ map (to_cpu_stats fl format now) for_cpu)
unfolding get_pool_stats get_cpu_stats cpu_totals cpu_body pool_totals pool_body average
statistics-Reports fl format now pool {for_stats} {for_cpu} {for_count} p q r =
    let count = get_active_miner_count-sum now r in
    let in_stats = pool_totals-active_miners fl now p ∙ sym count in
    let in_cpu = cpu_totals-active fl format now q ∙ sym count in
    let known = sym (length-map (λ e. e.1) pool.miners) in
    (
      record {
        active_counted = count;
        miners_in_stats = known;
        miners_in_cpu = known;
        active_in_stats = in_stats;
        active_in_cpu = in_cpu;
        hash_rate_summed = pool_totals-hash_rate fl now p;
        hash_rate_in_cpu =
            cpu_totals-hash_rate fl format now q ∙ sym (pool_totals-hash_rate fl now p);
        hashes_summed = pool_totals-hashes fl now p;
        hashes_in_cpu = cpu_totals-hashes fl format now q ∙ sym (pool_totals-hashes fl now p);
        blocks_summed = pool_totals-blocks_mined fl now p;
        mining_time_summed = ap fl.seconds (pool_totals-mining_time fl now p);
        mining_time_in_cpu =
            ap fl.seconds
              (cpu_totals-time fl format now q ∙ sym (pool_totals-mining_time fl now p));
        mining_hours_summed = ap fl.hours (cpu_totals-time fl format now q);
        usage_in_stats =
            for_miners-usage fl.add now (pool_body fl now) (λ t. t.cpu_usage) (λ m t. refl)
              for_stats _;
        usage_in_cpu =
            for_miners-usage fl.add now (cpu_body fl format now) (λ t. t.cpu) (λ m t. refl) for_cpu
              _;
        average_in_stats = ap (average fl (pool_totals fl now for_stats).cpu_usage) in_stats;
        average_in_cpu = ap (average fl (cpu_totals fl format now for_cpu).cpu) in_cpu;
        gpu_hash_rate_summed = cpu_totals-gpu_hash_rate fl format now q;
        gpu_enabled_counted = cpu_totals-gpu_enabled fl format now q;
        hybrid_counted = cpu_totals-hybrid fl format now q;
      },
      for_miners-append (cpu_body fl format now) (λ t. t.miner_stats) (to_cpu_stats fl format now)
          (λ m t. refl) for_cpu _,
    )
