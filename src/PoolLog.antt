-- ===== src/PoolLog.antt =====
-- server/logger.go: the snapshot of the pool, and the log file that WriteLog writes.
-- encoding/json and package os are parameters. A process that reads the file may run between two
-- changes of the files, so WriteLog says which states the files pass through.
pub mod Writes
pub mod Snapshots
use red_team_coin.Base.{
  ℕ, ◌-◌, Bool, ◌&&◌, Option, none, some, List, [], ◌∷◌, ◌++◌, map, ltb, if◌then◌else◌, Text, text,
  I32, I64,
}
use red_team_coin.EventLog.{LogEntry, PoolLogger}
use red_team_coin.Pool.{Float64, MinerRecord, MiningPool}
use red_team_coin.Pool.Statistics.{FloatOps, PoolStats, activity_window, get_miners, get_pool_stats}

pub record MinerLogInfo : Type 0 where
  pub id : Text
  pub ip_address : Text
  pub ip_address_actual : Text
  pub hostname : Text
  pub registered_at : ℕ
  pub last_heartbeat : ℕ
  pub active : Bool
  pub should_mine : Bool
  pub cpu_throttle_percent : I32
  pub blocks_mined : I64
  pub hash_rate : I64
  pub cpu_usage_percent : Float64
  pub total_hashes : I64
  pub total_mining_time : Float64
  pub gpu_enabled : Bool
  pub gpu_hash_rate : I64
  pub hybrid_mode : Bool

pub record PoolSnapshot : Type 0 where
  pub timestamp : ℕ
  pub total_miners : I64
  pub active_miners : I64
  pub total_hash_rate : I64
  pub total_blocks_mined : I64
  pub blockchain_height : I64
  pub difficulty : I32
  pub miners : List MinerLogInfo

pub record LogFile : Type 0 where
  pub server_start_time : ℕ
  pub server_uptime : Float64
  pub last_update : ℕ
  pub events : List LogEntry
  pub current_snapshot : PoolSnapshot

module _ (fl : FloatOps) (now : ℕ) where
  unfoldable pub to_log_info : MinerRecord → MinerLogInfo
  to_log_info miner = record {
    id = miner.id;
    ip_address = miner.ip_address;
    ip_address_actual = miner.ip_address_actual;
    hostname = miner.hostname;
    registered_at = miner.registered_at;
    last_heartbeat = miner.last_heartbeat;
    active = miner.active && ltb (now - miner.last_heartbeat) activity_window;
    should_mine = miner.should_mine;
    cpu_throttle_percent = miner.cpu_throttle_percent;
    blocks_mined = miner.blocks_mined;
    hash_rate = miner.hash_rate;
    cpu_usage_percent = miner.cpu_usage_percent;
    total_hashes = miner.total_hashes;
    total_mining_time = fl.seconds miner.total_mining_time;
    gpu_enabled = miner.gpu_enabled;
    gpu_hash_rate = miner.gpu_hash_rate;
    hybrid_mode = miner.hybrid_mode;
  }

  -- for _, miner := range miners { minerInfos = append(minerInfos, MinerLogInfo{...}) }
  unfoldable pub log_infos : List MinerRecord → List MinerLogInfo → List MinerLogInfo
  log_infos [] infos = infos
  log_infos (miner ∷ miners) infos = log_infos miners (infos ++ to_log_info miner ∷ [])

-- GetMiners and GetPoolStats take the pool's lock one after the other: `listed` are the miners that
-- the first one visits, as they are when the loop reads them; `stats_now`, `visits` and `pool` are
-- the time, the visits and the pool of the second.
unfoldable pub get_pool_snapshot :
    FloatOps → ℕ → List MinerRecord → ℕ → List MinerRecord → MiningPool → PoolSnapshot
get_pool_snapshot fl now listed stats_now visits pool =
    let miners = get_miners listed in
    let stats = get_pool_stats fl stats_now visits pool in
    record {
      timestamp = now;
      total_miners = stats.total_miners;
      active_miners = stats.active_miners;
      total_hash_rate = stats.total_hash_rate;
      total_blocks_mined = stats.total_blocks_mined;
      blockchain_height = stats.blockchain_height;
      difficulty = stats.difficulty;
      miners = log_infos fl now miners [];
    }

unfoldable pub log_data : FloatOps → ℕ → PoolLogger → PoolSnapshot → LogFile
log_data fl now logger snapshot = record {
  server_start_time = logger.start_time;
  server_uptime = fl.seconds (now - logger.start_time);
  last_update = now;
  events = logger.events;
  current_snapshot = snapshot;
}

pub data LogError : Type 0 where
  failed_to_marshal failed_to_write failed_to_rename : LogError

-- The contents of the files by their names.
abbrev pub Files : Type 0
Files = Text → Option Text

-- os.WriteFile and os.Rename, each with the answer whether it returned no error.
pub record FileSystem : Type 0 where
  pub write_file : Text → Text → Files → Files × Bool
  pub rename : Text → Text → Files → Files × Bool

-- One call of WriteLog: the files after each of its steps, the last state at the end, and its error.
pub record Written : Type 0 where
  pub between : List Files
  pub after : Files
  pub error : Option LogError

module _ (fs : FileSystem) where
  unfoldable pub rename_log : Text → Text → Files × Bool → Written
  rename_log temp_file log_file (files, wrote) =
      let (files', renamed) = fs.rename temp_file log_file files in
      if wrote
      then record {
        between = files ∷ [];
        after = files';
        error = if renamed then none else some failed_to_rename;
      }
      else record { between = []; after = files; error = some failed_to_write }

  unfoldable pub write_log : (LogFile → Option Text) → Text → LogFile → Files → Written
  write_log marshal log_file entry files = elim (marshal entry) [
    | none ↦ record { between = []; after = files; error = some failed_to_marshal }
    | some content ↦
        let temp_file = log_file ++ text ".tmp" in
        rename_log temp_file log_file (fs.write_file temp_file content files)
  ]

  -- The goroutine of Start: a write at once and one for each tick; an error is only printed. The
  -- list has the data of each write.
  unfoldable pub start : (LogFile → Option Text) → Text → List LogFile → Files → Files
  start marshal log_file [] files = files
  start marshal log_file (entry ∷ ticks) files =
      start marshal log_file ticks (write_log marshal log_file entry files).after
