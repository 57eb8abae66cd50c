-- ===== src/Pool/Statistics.antt =====
-- The statistics of server/pool.go: GetMiners, GetActiveMinerCount, GetPoolStats and GetCPUStats.
-- Go leaves the order of `range` over a map open: `visits` is the order that one loop takes.
-- The arithmetic of float64 and the conversions of package time are a parameter.
use red_team_coin.Base.{
  ℕ, ◌-◌, ◌*◌, ◌/◌, ◌^◌, Bool, ◌&&◌, List, [], ◌∷◌, ◌++◌, map, ltb, if◌then◌else◌, length, Text,
  I32, I64, add64, lt64,
}
use red_team_coin.Chain.{get_block_count}
use red_team_coin.Pool.{Float64, GpuDeviceInfo, MinerRecord, MiningPool}

pub record FloatOps : Type 0 where
  pub add : Float64 → Float64 → Float64
  pub div : Float64 → Float64 → Float64
  pub of_int : I64 → Float64
  pub seconds : I64 → Float64
  pub hours : I64 → Float64

-- 2 * time.Minute.
abbrev pub activity_window : ℕ
activity_window = 2 * 60 * 10 ^ 9

-- miner.Active && time.Since(miner.LastHeartbeat) < 2*time.Minute
unfoldable pub is_active : ℕ → MinerRecord → Bool
is_active now miner = miner.active && ltb (now - miner.last_heartbeat) activity_window

-- for _, miner := range mp.miners { ... }
unfoldable pub for_miners {ℓ} : {S : Type ℓ} → (MinerRecord → S → S) → List MinerRecord → S → S
for_miners body [] s = s
for_miners body (miner ∷ visits) s = for_miners body visits (body miner s)

unfoldable pub get_miners : List MinerRecord → List MinerRecord
get_miners visits = for_miners (λ miner miners. miners ++ miner ∷ []) visits []

unfoldable pub count_active : ℕ → MinerRecord → I64 → I64
count_active now miner count = if is_active now miner then add64 count 1 else count

unfoldable pub get_active_miner_count : ℕ → List MinerRecord → I64
get_active_miner_count now visits = for_miners (count_active now) visits 0

-- The variables of the loop in GetPoolStats.
pub record PoolTotals : Type 0 where
  pub hash_rate : I64
  pub active_miners : I64
  pub blocks_mined : I64
  pub cpu_usage : Float64
  pub hashes : I64
  pub mining_time : I64

pub record PoolStats : Type 0 where
  pub total_miners : I64
  pub active_miners : I64
  pub total_hash_rate : I64
  pub total_blocks_mined : I64
  pub total_hashes : I64
  pub total_mining_time : Float64
  pub avg_cpu_usage : Float64
  pub total_cpu_usage : Float64
  pub blockchain_height : I64
  pub difficulty : I32
  pub block_reward : I64

pub record GpuDeviceStats : Type 0 where
  pub id : I64
  pub name : Text
  pub kind : Text
  pub memory_mb : ℕ
  pub compute_units : I64
  pub available : Bool

pub record CpuStats : Type 0 where
  pub miner_id : Text
  pub ip_address : Text
  pub ip_address_actual : Text
  pub hostname : Text
  pub cpu_usage_percent : Float64
  pub total_hashes : I64
  pub mining_time_hours : Float64
  pub mining_time_sec : Float64
  pub hash_rate : I64
  pub active : Bool
  pub registered_at : Text
  pub gpu_devices : List GpuDeviceStats
  pub gpu_hash_rate : I64
  pub gpu_enabled : Bool
  pub hybrid_mode : Bool

-- The variables of the loop in GetCPUStats, with the entries appended so far.
pub record CpuTotals : Type 0 where
  pub cpu : Float64
  pub hashes : I64
  pub time : I64
  pub hash_rate : I64
  pub gpu_hash_rate : I64
  pub active : I64
  pub gpu_enabled : I64
  pub hybrid : I64
  pub miner_stats : List CpuStats

pub record TotalCpuStats : Type 0 where
  pub total_miners : I64
  pub active_miners : I64
  pub total_cpu_usage : Float64
  pub average_cpu_usage : Float64
  pub total_hashes : I64
  pub total_mining_hours : Float64
  pub total_mining_time : Float64
  pub total_hash_rate : I64
  pub total_gpu_hash_rate : I64
  pub gpu_enabled_miners : I64
  pub hybrid_miners : I64
  pub miner_stats : List CpuStats

unfoldable pub to_gpu_stats : GpuDeviceInfo → GpuDeviceStats
to_gpu_stats dev = record {
  id = dev.id;
  name = dev.name;
  kind = dev.kind;
  memory_mb = dev.memory / 1024 / 1024;
  compute_units = dev.compute_units;
  available = dev.available;
}

-- add64 under a test.
abbrev pub add_if : Bool → I64 → I64 → I64
add_if test total n = if test then add64 total n else total

-- activeMiners > 0 ? total / float64(activeMiners) : 0.0
unfoldable pub average : FloatOps → Float64 → I64 → Float64
average fl total active = if lt64 0 active then fl.div total (fl.of_int active) else 0

module _ (fl : FloatOps) (now : ℕ) where
  unfoldable pub pool_body : MinerRecord → PoolTotals → PoolTotals
  pool_body miner t =
      let active = is_active now miner in
      record {
        hash_rate = add_if active t.hash_rate miner.hash_rate;
        active_miners = add_if active t.active_miners 1;
        blocks_mined = add64 t.blocks_mined miner.blocks_mined;
        cpu_usage = if active then fl.add t.cpu_usage miner.cpu_usage_percent else t.cpu_usage;
        hashes = add64 t.hashes miner.total_hashes;
        mining_time = add64 t.mining_time miner.total_mining_time;
      }

  unfoldable pub pool_totals : List MinerRecord → PoolTotals
  pool_totals visits = for_miners pool_body visits (record {
    hash_rate = 0;
    active_miners = 0;
    blocks_mined = 0;
    cpu_usage = 0;
    hashes = 0;
    mining_time = 0;
  })

  unfoldable pub get_pool_stats : List MinerRecord → MiningPool → PoolStats
  get_pool_stats visits pool =
      let t = pool_totals visits in
      record {
        total_miners = length pool.miners;
        active_miners = t.active_miners;
        total_hash_rate = t.hash_rate;
        total_blocks_mined = t.blocks_mined;
        total_hashes = t.hashes;
        total_mining_time = fl.seconds t.mining_time;
        avg_cpu_usage = average fl t.cpu_usage t.active_miners;
        total_cpu_usage = t.cpu_usage;
        blockchain_height = get_block_count pool.blockchain;
        difficulty = pool.blockchain.difficulty;
        block_reward = pool.block_reward;
      }

-- `format` is Format(time.RFC3339) of a time.
module _ (fl : FloatOps) (format : ℕ → Text) (now : ℕ) where
  unfoldable pub to_cpu_stats : MinerRecord → CpuStats
  to_cpu_stats miner = record {
    miner_id = miner.id;
    ip_address = miner.ip_address;
    ip_address_actual = miner.ip_address_actual;
    hostname = miner.hostname;
    cpu_usage_percent = miner.cpu_usage_percent;
    total_hashes = miner.total_hashes;
    mining_time_hours = fl.hours miner.total_mining_time;
    mining_time_sec = fl.seconds miner.total_mining_time;
    hash_rate = miner.hash_rate;
    active = is_active now miner;
    registered_at = format miner.registered_at;
    gpu_devices = map to_gpu_stats miner.gpu_devices;
    gpu_hash_rate = miner.gpu_hash_rate;
    gpu_enabled = miner.gpu_enabled;
    hybrid_mode = miner.hybrid_mode;
  }

  unfoldable pub cpu_body : MinerRecord → CpuTotals → CpuTotals
  cpu_body miner t =
      let active = is_active now miner in
      record {
        cpu = if active then fl.add t.cpu miner.cpu_usage_percent else t.cpu;
        hashes = add64 t.hashes miner.total_hashes;
        time = add64 t.time miner.total_mining_time;
        hash_rate = add_if active t.hash_rate miner.hash_rate;
        gpu_hash_rate = add_if active t.gpu_hash_rate miner.gpu_hash_rate;
        active = add_if active t.active 1;
        gpu_enabled = add_if (active && miner.gpu_enabled) t.gpu_enabled 1;
        hybrid = add_if (active && miner.hybrid_mode) t.hybrid 1;
        miner_stats = t.miner_stats ++ to_cpu_stats miner ∷ [];
      }

  unfoldable pub cpu_totals : List MinerRecord → CpuTotals
  cpu_totals visits = for_miners cpu_body visits (record {
    cpu = 0;
    hashes = 0;
    time = 0;
    hash_rate = 0;
    gpu_hash_rate = 0;
    active = 0;
    gpu_enabled = 0;
    hybrid = 0;
    miner_stats = [];
  })

  unfoldable pub get_cpu_stats : List MinerRecord → MiningPool → TotalCpuStats
  get_cpu_stats visits pool =
      let t = cpu_totals visits in
      record {
        total_miners = length pool.miners;
        active_miners = t.active;
        total_cpu_usage = t.cpu;
        average_cpu_usage = average fl t.cpu t.active;
        total_hashes = t.hashes;
        total_mining_hours = fl.hours t.time;
        total_mining_time = fl.seconds t.time;
        total_hash_rate = t.hash_rate;
        total_gpu_hash_rate = t.gpu_hash_rate;
        gpu_enabled_miners = t.gpu_enabled;
        hybrid_miners = t.hybrid;
        miner_stats = t.miner_stats;
      }
