-- ===== src/Pool.antt =====
-- server/pool.go: the state of MiningPool and its errors. The operations are in the modules below.
-- A time is a count of nanoseconds, one reading of the clock for each call, since a call holds the
-- pool's lock. A float64 is its bit pattern; only the statistics compute with one.
-- The map of pending work holds pointers to blocks; no two entries and no place of the queue share
-- one, so a block is a value here.
pub mod Registry
pub mod Work
pub mod System
pub mod Statistics
pub mod Totals
pub mod Reports
pub mod Invariant
pub mod Returns
pub mod Reachable
pub mod Submission
pub mod Effects
pub mod Assignment
pub mod Handed
pub mod Growth
pub mod Anchors
pub mod Traceable
pub mod Freshness
pub mod Payment
use red_team_coin.Base.{
  ℕ, ◌/◌, ◌^◌, Bool, Option, none, some, List, [], Text, text, I32, I64, ◌≡◌, inl, inr,
  Option-cases,
}
use red_team_coin.Base.Dict.{Dict, lookup}
use red_team_coin.Outcome.{Outcome, ok, err}
use red_team_coin.Chain.{Block, Blockchain, ChainError, invalid_block}
use red_team_coin.EventLog.{Detail, PoolLogger, log_event}

abbrev pub Float64 : Type 0
Float64 = ℕ

pub record GpuDeviceInfo : Type 0 where
  pub id : I64
  pub name : Text
  pub kind : Text
  pub memory : ℕ  -- uint64
  pub compute_units : I64
  pub available : Bool

pub record MinerRecord : Type 0 where
  pub id : Text
  pub ip_address : Text
  pub ip_address_actual : Text
  pub hostname : Text
  pub registered_at : ℕ
  pub last_heartbeat : ℕ
  pub active : Bool
  pub should_mine : Bool
  pub cpu_throttle_percent : I32
  pub blocks_mined : I64
  pub hash_rate : I64
  pub total_mining_time : I64
  pub cpu_usage_percent : Float64
  pub total_hashes : I64
  pub gpu_devices : List GpuDeviceInfo
  pub gpu_hash_rate : I64
  pub gpu_enabled : Bool
  pub hybrid_mode : Bool

pub record PendingWork : Type 0 where
  pub miner_id : Text
  pub block : Block
  pub assigned_at : ℕ

-- `cancelled` is the state of the pool's context.
pub record MiningPool : Type 0 where
  pub blockchain : Blockchain
  pub miners : Dict MinerRecord
  pub pending_work : Dict PendingWork
  pub work_queue : List Block
  pub block_reward : I64
  pub logger : Option PoolLogger
  pub cancelled : Bool

pub data PoolError : Type 0 where
  miner_not_registered : PoolError
  miner_not_found : PoolError
  no_pending_work : PoolError
  block_index_mismatch : PoolError
  block_is_stale : PoolError
  rejected_by_chain : ChainError → PoolError
  throttle_out_of_range : PoolError

-- err.Error().
unfoldable pub error_text : PoolError → Text
error_text miner_not_registered = text "miner not registered"
error_text miner_not_found = text "miner not found"
error_text no_pending_work = text "no pending work for miner"
error_text block_index_mismatch = text "block index mismatch"
error_text block_is_stale = text "block is stale"
error_text (rejected_by_chain invalid_block) = text "invalid block"
error_text throttle_out_of_range = text "throttle percentage must be between 0 and 100"

unfoldable pub new_mining_pool : Blockchain → MiningPool
new_mining_pool blockchain = record {
  blockchain = blockchain;
  miners = [];
  pending_work = [];
  work_queue = [];
  block_reward = 50;
  logger = none;
  cancelled = Bool.false;
}

unfoldable pub set_logger : PoolLogger → MiningPool → MiningPool
set_logger logger pool = record pool { logger = some logger }

unfoldable pub shutdown : MiningPool → MiningPool
shutdown pool = record pool { cancelled = Bool.true }

-- if mp.logger != nil { mp.logger.LogEvent(...) }
log_if_set : Text → Text → Text → List (Text × Detail) → ℕ → Option PoolLogger → Option PoolLogger
log_if_set event_type message miner_id details now none = none
log_if_set event_type message miner_id details now (some logger) =
    some (log_event event_type message miner_id details now logger)

unfoldable pub report : Text → Text → Text → List (Text × Detail) → ℕ → MiningPool → MiningPool
unfolding log_if_set
report event_type message miner_id details now pool = record pool {
  logger = log_if_set event_type message miner_id details now pool.logger;
}

-- miner, exists := mp.miners[id]; if !exists { return ..., missing }
module _ {ℓ} {R : Type ℓ} where
  unfoldable pub with_miner :
      Text
      → PoolError
      → MiningPool
      → (MinerRecord → MiningPool × Outcome PoolError R)
      → MiningPool × Outcome PoolError R
  with_miner id missing pool act = elim (lookup id pool.miners) [
    | none ↦ (pool, err missing)
    | some miner ↦ act miner
  ]

  -- What holds of the pool as it was, and after the action on each miner found, holds after all.
  pub with_miner-keeps {κ} :
      (P : MiningPool → Type κ) (id : Text) (missing : PoolError) (pool : MiningPool)
      (act : MinerRecord → MiningPool × Outcome PoolError R)
      → P pool
      → ((miner : MinerRecord) → lookup id pool.miners ≡ some miner → P (act miner).0)
      → P (with_miner id missing pool act).0
  unfolding with_miner
  with_miner-keeps P id missing pool act before after =
      elim (Option-cases (lookup id pool.miners)) [
        | inl e ↦ rw (e, with_miner) before
        | inr (miner, e) ↦ rw (e, with_miner) (after miner e)
      ]
