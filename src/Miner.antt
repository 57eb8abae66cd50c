-- ===== src/Miner.antt =====
-- client/main.go: the Miner of the client, its mining loop, its heartbeats, its end and the
-- connection with its retries. The loop and the heartbeats are two goroutines that share the Miner:
-- `doing` and `heart` say where each stands, and an event takes one of them a step further. What the
-- server answers, how long the searches run, and the speed that is measured come with the events.
-- The counter of the GPU miner moves during a search, so what GetHashCount returns is an argument.
pub mod Removal
pub mod Kept
pub mod Steps
pub mod Handled
pub mod Connect
pub mod Stopped
pub mod Honest
pub mod Control
pub mod Forward
use red_team_coin.Base.{
  ℕ, zero, suc, ◌%◌, ◌+◌, ◌-◌, ◌^◌, Bool, true, false, not, ◌&&◌, ◌||◌, Option, none, some, List,
  [], ◌∷◌, ◌++◌, map, bool_eq, ◌==◌, if◌then◌else◌, Text, text, I32, I64, add64, lt64,
}
use red_team_coin.Config.{GpuConfig, MiningConfig}
use red_team_coin.Pool.{Float64}
use red_team_coin.Rpc.{
  WorkResponse, SubmissionResponse, HeartbeatResponse, GpuDeviceMessage, MinerStatus, widen,
}
use red_team_coin.Client.{mine_block}
use red_team_coin.Gpu.{
  Ran, returns, panics, runs_out, GpuDevice, GpuMiner, Kernel, has_devices, start_gpu, stop_gpu,
}
use red_team_coin.Gpu.Search.{mine_block_gpu, Race, mine_block_hybrid}

-- What a SubmitWork call sends, with the work that it answers.
pub record Submission : Type 0 where
  pub miner_id : Text
  pub block_index : I64
  pub nonce : I64
  pub hash : Text
  pub work : WorkResponse

-- Where mine stands. resting: at the head of its loop; fetching: past the tests there, until GetWork
-- has answered; reporting: past the second test of m.running, with the nonce and the hash that the
-- call of SubmitWork is to send; submitting: in that call; ended: mine has returned.
pub data Doing : Type 0 where
  resting fetching submitting ended : Doing
  searching : WorkResponse → Doing
  reporting : WorkResponse → I64 → Text → Doing

pub data Heart : Type 0 where
  waiting asking still : Heart

-- `sent` are the submissions, `notices` the calls of StopMining, `removed` whether sendHeartbeat has
-- called selfDelete.
pub record Miner : Type 0 where
  pub id : Text
  pub blocks_mined : I64
  pub hash_rate : I64
  pub running : Bool
  pub should_mine : Bool
  pub cpu_throttle_percent : I64
  pub total_hashes : I64
  pub deleted_by_server : Bool
  pub gpu_miner : GpuMiner
  pub has_gpu : Bool
  pub gpu_enabled : Bool
  pub hybrid_mode : Bool
  pub current_block_index : I64
  pub cancelled : Bool
  pub removed : Bool
  pub doing : Doing
  pub heart : Heart
  pub sent : List Submission
  pub notices : ℕ

unfoldable pub new_miner : Text → MiningConfig → GpuMiner → Miner
new_miner id mining gpu = record {
  id = id;
  blocks_mined = 0;
  hash_rate = 0;
  running = false;
  should_mine = true;
  cpu_throttle_percent = 0;
  total_hashes = 0;
  deleted_by_server = false;
  gpu_miner = gpu;
  has_gpu = has_devices gpu.devices;
  gpu_enabled = has_devices gpu.devices && mining.gpu_enabled;
  hybrid_mode = has_devices gpu.devices && mining.hybrid_mode;
  current_block_index = 0;
  cancelled = false;
  removed = false;
  doing = ended;
  heart = still;
  sent = [];
  notices = 0;
}

-- Start: an error of the GPU miner is only logged.
unfoldable pub start : Miner → Miner
start m = record m {
  running = true;
  total_hashes = 0;
  gpu_miner = if m.has_gpu && m.gpu_enabled then (start_gpu m.gpu_miner).0 else m.gpu_miner;
  doing = resting;
  heart = waiting;
}

unfoldable pub stop : Miner → Miner
stop m = if not m.running then m else record m {
  running = false;
  gpu_miner = if m.has_gpu && m.gpu_enabled then stop_gpu m.gpu_miner else m.gpu_miner;
  notices = if m.deleted_by_server then m.notices else suc m.notices;
  cancelled = true;
}

-- How long the searches of a block run, and the speed that is measured if the clock has moved.
pub record Effort : Type 0 where
  pub schedule : List (ℕ × ℕ)
  pub rounds : ℕ
  pub race : Race
  pub measured : Option I64

module _ (sha : Text → Text) (cuda open_cl : Kernel) (gpu : GpuConfig) where
  -- The switch of mine: `none` for a race that cannot be.
  unfoldable pub search : Miner → WorkResponse → Effort → Ran (Option (I64 × Text × I64))
  search m work effort =
      if m.has_gpu && (m.gpu_enabled && m.hybrid_mode)
      then mine_block_hybrid sha cuda open_cl gpu.nonce_range gpu.cpu_start_nonce work effort.race
          m.gpu_miner
      else if m.has_gpu && m.gpu_enabled
      then elim (mine_block_gpu sha cuda open_cl work gpu.nonce_range effort.rounds 0 0
          m.gpu_miner) [
            | returns (_, r) ↦ returns (some (r.nonce, r.hash, r.hashes))
            | panics ↦ panics
            | runs_out ↦ runs_out
          ]
      else elim (mine_block sha work effort.schedule) [
        | none ↦ panics
        | some (nonce, (hash, hashes)) ↦ returns (some (nonce, hash, hashes))
      ]

-- The head of the loop of mine.
unfoldable pub begin_round : Miner → Miner
begin_round m =
    if not m.running
    then record m { doing = ended }
    else if not m.should_mine
    then m
    else record m { doing = fetching }

-- From the answer of GetWork to the search.
unfoldable pub take_work : Option WorkResponse → Miner → Miner
take_work none m = record m { doing = resting }
take_work (some work) m =
    if lt64 work.block_index m.current_block_index
    then record m { doing = resting }
    else record m { current_block_index = work.block_index; doing = searching work }

-- The end of the search, the second test of m.running, and the hash rate.
unfoldable pub end_search : WorkResponse → Effort → I64 × Text × I64 → Miner → Miner
end_search work effort (nonce, hash, hashes) m =
    let counted = record m { total_hashes = add64 m.total_hashes hashes } in
    if not m.running then record counted { doing = ended } else record counted {
      hash_rate = elim effort.measured [ none ↦ m.hash_rate | some rate ↦ rate ];
      doing = reporting work nonce hash;
    }

-- The call of SubmitWork.
unfoldable pub submit_answer : WorkResponse → I64 → Text → Miner → Miner
submit_answer work nonce hash m = record m {
  doing = submitting;
  sent =
      m.sent
      ++ record {
        miner_id = m.id;
        block_index = work.block_index;
        nonce = nonce;
        hash = hash;
        work = work;
      }
        ∷ [];
}

unfoldable pub take_verdict : Option SubmissionResponse → Miner → Miner
take_verdict none m = record m { doing = resting }
take_verdict (some resp) m = record m {
  doing = resting;
  blocks_mined = if resp.accepted then add64 m.blocks_mined 1 else m.blocks_mined;
}

-- A tick of the heartbeat: the goroutine ends with the miner.
unfoldable pub beat : Miner → Miner
beat m = if m.running then record m { heart = asking } else record m { heart = still }

-- What sendHeartbeat does with the answer; `none` is a failed call.
unfoldable pub take_heartbeat : Option HeartbeatResponse → Miner → Miner
take_heartbeat none m = record m { heart = waiting }
take_heartbeat (some resp) m =
    if not resp.active
    then record m {
      deleted_by_server = true;
      running = false;
      removed = true;
      cancelled = true;
      heart = still;
    }
    else record m {
      should_mine =
          if bool_eq m.should_mine resp.should_mine then m.should_mine else resp.should_mine;
      cpu_throttle_percent =
          if m.cpu_throttle_percent == widen resp.cpu_throttle_percent
          then m.cpu_throttle_percent
          else widen resp.cpu_throttle_percent;
      heart = waiting;
    }

-- An int clamped to an int32.
unfoldable pub clamp_to_int32 : I64 → I32
clamp_to_int32 n =
    if lt64 (2 ^ 31 - 1) n
    then 2 ^ 31 - 1
    else if lt64 n (2 ^ 64 - 2 ^ 31)
    then 2 ^ 31
    else n % 2 ^ 32

unfoldable pub to_message : GpuDevice → GpuDeviceMessage
to_message dev = record {
  id = clamp_to_int32 dev.id;
  name = dev.name;
  kind = dev.kind;
  memory = dev.memory;
  compute_units = clamp_to_int32 dev.compute_units;
  available = dev.available;
}

-- What a heartbeat reports, with the estimate of the CPU's use, the seconds since the start, and
-- what GetHashCount returns.
unfoldable pub status : Float64 → I64 → I64 → Miner → MinerStatus
status cpu_usage mining_time gpu_hash_count m = record {
  miner_id = m.id;
  hash_rate = m.hash_rate;
  blocks_mined = m.blocks_mined;
  cpu_usage_percent = cpu_usage;
  total_hashes = m.total_hashes;
  mining_time_seconds = mining_time;
  gpu_devices = if m.has_gpu && m.gpu_enabled then map to_message m.gpu_miner.devices else [];
  gpu_hash_rate = if m.has_gpu && m.gpu_enabled then gpu_hash_count else 0;
  gpu_enabled = m.gpu_enabled;
  hybrid_mode = m.hybrid_mode;
}
