-- ===== src/Report.antt =====
-- tools/generate_report.go: the report on the miners that a log file names.
-- A float64 is its bit pattern, and its arithmetic a parameter; a time is a count of nanoseconds.
pub mod Format
pub mod Impact
pub mod Output
pub mod Keyed
pub mod Loop
pub mod Totals
pub mod Estimates
pub mod Seen
pub mod Spans
pub mod Uniques
pub mod Kinds
pub mod Printed
pub mod Pipeline
use red_team_coin.Base.{ℕ, Bool, List, Text, I64}
use red_team_coin.EventLog.{LogEntry}
use red_team_coin.Pool.{Float64}

-- `to_int` is a conversion to int64, `fixed` the text with a number of decimals.
pub record FloatOps : Type 0 where
  pub add : Float64 → Float64 → Float64
  pub mul : Float64 → Float64 → Float64
  pub div : Float64 → Float64 → Float64
  pub ge : Float64 → Float64 → Bool
  pub gt : Float64 → Float64 → Bool
  pub of_int : I64 → Float64
  pub to_int : Float64 → I64
  pub fixed : ℕ → Float64 → Text
  pub hours : I64 → Float64
  pub minutes : I64 → Float64

-- The tool has its own copies of the server's structs; that of an event differs in nothing.
pub record MinerLogInfo : Type 0 where
  pub id : Text
  pub ip_address : Text
  pub ip_address_actual : Text
  pub hostname : Text
  pub registered_at : ℕ
  pub last_heartbeat : ℕ
  pub active : Bool
  pub should_mine : Bool
  pub cpu_throttle_percent : I64
  pub blocks_mined : I64
  pub hash_rate : I64
  pub cpu_usage_percent : Float64
  pub total_hashes : I64
  pub total_mining_time : Float64
  pub gpu_enabled : Bool
  pub gpu_hash_rate : I64
  pub hybrid_mode : Bool

pub record PoolSnapshot : Type 0 where
  pub timestamp : ℕ
  pub total_miners : I64
  pub active_miners : I64
  pub total_hash_rate : I64
  pub total_blocks_mined : I64
  pub blockchain_height : I64
  pub difficulty : I64
  pub miners : List MinerLogInfo

pub record LogFile : Type 0 where
  pub server_start_time : ℕ
  pub server_uptime : Float64
  pub last_update : ℕ
  pub events : List LogEntry
  pub current_snapshot : PoolSnapshot

pub record MinerImpactStats : Type 0 where
  pub miner_id : Text
  pub hostname : Text
  pub ip_address : Text
  pub ip_address_actual : Text
  pub first_seen : ℕ
  pub last_seen : ℕ
  pub total_mining_time : I64
  pub total_hashes : I64
  pub blocks_mined : I64
  pub avg_cpu_usage : Float64
  pub peak_cpu_usage : Float64
  pub gpu_enabled : Bool
  pub hybrid_mode : Bool
  pub estimated_cpu_hours : Float64
  pub estimated_kwh : Float64
  pub estimated_cost : Float64
  pub compute_impact : Text
  pub mining_type : Text

pub record SystemImpactReport : Type 0 where
  pub report_generated_at : ℕ
  pub analysis_period : Text
  pub start_date : ℕ
  pub end_date : ℕ
  pub total_miners : I64
  pub unique_hosts : I64
  pub unique_ips : I64
  pub total_mining_hours : Float64
  pub total_hashes : I64
  pub total_blocks_mined : I64
  pub total_estimated_kwh : Float64
  pub total_estimated_cost : Float64
  pub avg_system_cpu_usage : Float64
  pub peak_system_cpu_usage : Float64
  pub miners_with_high_cpu : I64
  pub miners_with_gpu : I64
  pub miners_with_hybrid : I64
  pub miner_stats : List MinerImpactStats

-- The constants, each with the bits of its value.
abbrev pub avg_cpu_power_watts : Float64
avg_cpu_power_watts = 0x4062_c000_0000_0000  -- 150.0

abbrev pub avg_gpu_power_watts : Float64
avg_gpu_power_watts = 0x406f_4000_0000_0000  -- 250.0

-- The compiler adds the two constants.
abbrev pub hybrid_power_watts : Float64
hybrid_power_watts = 0x4079_0000_0000_0000  -- 400.0

abbrev pub electricity_cost_per : Float64
electricity_cost_per = 0x3fbe_b851_eb85_1eb8  -- 0.12

abbrev pub high_cpu_threshold : Float64
high_cpu_threshold = 0x4054_0000_0000_0000  -- 80.0
