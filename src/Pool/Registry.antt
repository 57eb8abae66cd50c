-- ===== src/Pool/Registry.antt =====
-- The operations of server/pool.go that change or read one miner's record.
use red_team_coin.Base.{
  ℕ, Bool, true, false, ◌||◌, none, some, List, [], ◌∷◌, if◌then◌else◌, Text, text, I32, I64, lt32,
}
use red_team_coin.Base.Dict.{lookup, insert, delete}
use red_team_coin.Outcome.{Outcome, ok, err}
use red_team_coin.EventLog.{words, number}
use red_team_coin.Pool.{
  Float64, GpuDeviceInfo, MinerRecord, MiningPool, PoolError, miner_not_registered, miner_not_found,
  throttle_out_of_range, report, with_miner,
}

unfoldable pub new_miner : Text → Text → Text → Text → ℕ → MinerRecord
new_miner id ip_address hostname actual_ip now = record {
  id = id;
  ip_address = ip_address;
  ip_address_actual = actual_ip;
  hostname = hostname;
  registered_at = now;
  last_heartbeat = now;
  active = true;
  should_mine = true;
  cpu_throttle_percent = 0;
  blocks_mined = 0;
  hash_rate = 0;
  total_mining_time = 0;
  cpu_usage_percent = 0;
  total_hashes = 0;
  gpu_devices = [];
  gpu_hash_rate = 0;
  gpu_enabled = false;
  hybrid_mode = false;
}

-- A write through the pointer that the map holds for the miner.
unfoldable pub set_miner : Text → MinerRecord → MiningPool → MiningPool
set_miner id miner pool = record pool { miners = insert id miner pool.miners }

unfoldable pub register_miner :
    Text → Text → Text → Text → ℕ → MiningPool → MiningPool × Outcome PoolError (Unit {0})
register_miner id ip_address hostname actual_ip now pool = elim (lookup id pool.miners) [
  | some miner ↦ (
    set_miner id
        (record miner { active = true; last_heartbeat = now; ip_address_actual = actual_ip }) pool,
    ok tt,
  )
  | none ↦ (
    report (text "miner_registered") (text "New miner registered") id
        ((text "ip_address", words ip_address)
          ∷ (text "ip_address_actual", words actual_ip)
          ∷ (text "hostname", words hostname)
          ∷ [])
        now (set_miner id (new_miner id ip_address hostname actual_ip now) pool),
    ok tt,
  )
]

unfoldable pub update_heartbeat :
    Text → I64 → Float64 → I64 → I64 → ℕ → MiningPool → MiningPool × Outcome PoolError (Unit {0})
update_heartbeat id hash_rate cpu_usage total_hashes mining_time now pool =
    with_miner id miner_not_registered pool λ miner. (
      set_miner id
          (record miner {
            last_heartbeat = now;
            hash_rate = hash_rate;
            cpu_usage_percent = cpu_usage;
            total_hashes = total_hashes;
            total_mining_time = mining_time;
          })
          pool,
      ok tt,
    )

-- The arguments of UpdateHeartbeatWithGPU behind the miner's id.
pub record Heartbeat : Type 0 where
  pub hash_rate : I64
  pub cpu_usage : Float64
  pub total_hashes : I64
  pub mining_time : I64
  pub gpu_devices : List GpuDeviceInfo
  pub gpu_hash_rate : I64
  pub gpu_enabled : Bool
  pub hybrid_mode : Bool

unfoldable pub update_heartbeat_with_gpu :
    Text → Heartbeat → ℕ → MiningPool → MiningPool × Outcome PoolError (Unit {0})
update_heartbeat_with_gpu id beat now pool = with_miner id miner_not_registered pool λ miner. (
  set_miner id
      (record miner {
        last_heartbeat = now;
        hash_rate = beat.hash_rate;
        cpu_usage_percent = beat.cpu_usage;
        total_hashes = beat.total_hashes;
        total_mining_time = beat.mining_time;
        gpu_devices = beat.gpu_devices;
        gpu_hash_rate = beat.gpu_hash_rate;
        gpu_enabled = beat.gpu_enabled;
        hybrid_mode = beat.hybrid_mode;
      })
      pool,
  ok tt,
)

unfoldable pub stop_miner : Text → MiningPool → MiningPool × Outcome PoolError I64
stop_miner id pool = with_miner id miner_not_registered pool λ miner. (
  record (set_miner id (record miner { active = false }) pool) {
    pending_work = delete id pool.pending_work;
  },
  ok miner.blocks_mined,
)

unfoldable pub pause_miner : Text → ℕ → MiningPool → MiningPool × Outcome PoolError (Unit {0})
pause_miner id now pool = with_miner id miner_not_found pool λ miner. (
  report (text "miner_paused") (text "Miner mining paused by server") id [] now
      (set_miner id (record miner { should_mine = false }) pool),
  ok tt,
)

unfoldable pub resume_miner : Text → ℕ → MiningPool → MiningPool × Outcome PoolError (Unit {0})
resume_miner id now pool = with_miner id miner_not_found pool λ miner. (
  report (text "miner_resumed") (text "Miner mining resumed by server") id [] now
      (set_miner id (record miner { should_mine = true }) pool),
  ok tt,
)

unfoldable pub delete_miner : Text → ℕ → MiningPool → MiningPool × Outcome PoolError (Unit {0})
delete_miner id now pool = with_miner id miner_not_found pool λ miner.
    let logged =
      report (text "miner_deleted") (text "Miner deleted from pool") id
        ((text "total_blocks_mined", number miner.blocks_mined)
          ∷ (text "total_hashes", number miner.total_hashes)
          ∷ (text "ip_address", words miner.ip_address)
          ∷ (text "hostname", words miner.hostname)
          ∷ [])
        now (record pool { pending_work = delete id pool.pending_work }) in
    (record logged { miners = delete id logged.miners }, ok tt)

unfoldable pub get_miner_status : Text → MiningPool → Outcome PoolError Bool
get_miner_status id pool = elim (lookup id pool.miners) [
  | none ↦ err miner_not_found
  | some miner ↦ ok miner.should_mine
]

unfoldable pub set_cpu_throttle :
    Text → I32 → ℕ → MiningPool → MiningPool × Outcome PoolError (Unit {0})
set_cpu_throttle id percent now pool = with_miner id miner_not_found pool λ miner.
    if lt32 percent 0 || lt32 100 percent then (pool, err throttle_out_of_range) else (
      report (text "miner_throttled") (text "CPU throttle set for miner") id
          ((text "throttle_percent", number percent) ∷ []) now
          (set_miner id (record miner { cpu_throttle_percent = percent }) pool),
      ok tt,
    )

unfoldable pub get_cpu_throttle : Text → MiningPool → Outcome PoolError I32
get_cpu_throttle id pool = elim (lookup id pool.miners) [
  | none ↦ err miner_not_found
  | some miner ↦ ok miner.cpu_throttle_percent
]
