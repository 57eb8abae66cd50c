-- ===== src/EventLog.antt =====
-- server/logger.go: the event buffer of PoolLogger, which keeps the latest events only.
-- The file that WriteLog writes is not modelled. A time is a count of nanoseconds.
pub mod Latest
use red_team_coin.Base.{ℕ, ◌-◌, List, [], ◌∷◌, ◌++◌, ltb, if◌then◌else◌, length, drop, Text, I64}

-- The values of a details map that the server puts in.
pub data Detail : Type 0 where
  words : Text → Detail
  number : I64 → Detail

pub record LogEntry : Type 0 where
  pub timestamp : ℕ
  pub event_type : Text
  pub miner_id : Text
  pub details : List (Text × Detail)
  pub message : Text

pub record PoolLogger : Type 0 where
  pub log_file : Text
  pub update_interval : I64
  pub start_time : ℕ
  pub events : List LogEntry
  pub max_events : ℕ

unfoldable pub new_pool_logger : Text → I64 → ℕ → PoolLogger
new_pool_logger log_file update_interval now = record {
  log_file = log_file;
  update_interval = update_interval;
  start_time = now;
  events = [];
  max_events = 1000;
}

-- if len(events) > maxEvents { events = events[len(events)-maxEvents:] }
unfoldable pub keep_latest {ℓ} : {A : Type ℓ} → ℕ → List A → List A
keep_latest max_events events =
    if ltb max_events (length events) then drop (length events - max_events) events else events

unfoldable pub new_entry : Text → Text → Text → List (Text × Detail) → ℕ → LogEntry
new_entry event_type message miner_id details now = record {
  timestamp = now;
  event_type = event_type;
  miner_id = miner_id;
  details = details;
  message = message;
}

unfoldable pub log_event : Text → Text → Text → List (Text × Detail) → ℕ → PoolLogger → PoolLogger
log_event event_type message miner_id details now logger =
    let entry = new_entry event_type message miner_id details now in
    record logger { events = keep_latest logger.max_events (logger.events ++ entry ∷ []) }
