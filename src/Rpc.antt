-- ===== src/Rpc.antt =====
-- server/grpc_server.go: the handlers of the gRPC service, on top of the pool.
-- The address that getClientIP finds is an argument; log lines are left out.
pub mod Control
use red_team_coin.Base.{
  ℕ, ◌+◌, ◌-◌, ◌*◌, ◌%◌, ◌^◌, Bool, true, false, List, [], ◌∷◌, ◌++◌, map, if◌then◌else◌, Text,
  text, text_eq, I32, I64, is_neg32, format_int,
}
use red_team_coin.Outcome.{Outcome, ok, err, panic}
use red_team_coin.Chain.{Block}
use red_team_coin.Pool.{Float64, GpuDeviceInfo, MiningPool, PoolError, error_text}
use red_team_coin.Pool.Registry.{
  Heartbeat, register_miner, update_heartbeat_with_gpu, stop_miner, get_miner_status,
  get_cpu_throttle,
}
use red_team_coin.Pool.Work.{get_work, submit_work}

pub record RegistrationResponse : Type 0 where
  pub success : Bool
  pub message : Text
  pub miner_id : Text

pub record WorkResponse : Type 0 where
  pub block_index : I64
  pub previous_hash : Text
  pub data_text : Text
  pub difficulty : I32
  pub timestamp : I64

pub record SubmissionResponse : Type 0 where
  pub accepted : Bool
  pub message : Text
  pub reward : I64

-- The fields of pb.GPUDevice; the numbers of the message are int32, but for the memory.
pub record GpuDeviceMessage : Type 0 where
  pub id : I32
  pub name : Text
  pub kind : Text
  pub memory : ℕ
  pub compute_units : I32
  pub available : Bool

pub record MinerStatus : Type 0 where
  pub miner_id : Text
  pub hash_rate : I64
  pub blocks_mined : I64
  pub cpu_usage_percent : Float64
  pub total_hashes : I64
  pub mining_time_seconds : I64
  pub gpu_devices : List GpuDeviceMessage
  pub gpu_hash_rate : I64
  pub gpu_enabled : Bool
  pub hybrid_mode : Bool

pub record HeartbeatResponse : Type 0 where
  pub active : Bool
  pub message : Text
  pub should_mine : Bool
  pub cpu_throttle_percent : I32

pub record StopResponse : Type 0 where
  pub success : Bool
  pub message : Text
  pub total_blocks_mined : I64

registration_reply : Text → Outcome PoolError (Unit {0}) → Outcome PoolError RegistrationResponse
registration_reply id (ok _) =
    ok (record { success = true; message = text "Miner registered successfully"; miner_id = id })
registration_reply id (err e) = err e
registration_reply id panic = panic

-- RegisterMiner sends its response along with the error, which gRPC then drops.
unfoldable pub handle_register :
    Text → Text → Text → Text → ℕ → MiningPool → MiningPool × Outcome PoolError RegistrationResponse
unfolding registration_reply
handle_register id ip_address hostname actual_ip now pool =
    let (pool', result) = register_miner id ip_address hostname actual_ip now pool in
    (pool', registration_reply id result)

unfoldable pub work_reply : I32 → Outcome PoolError Block → Outcome PoolError WorkResponse
work_reply difficulty (ok block) = ok (record {
  block_index = block.index;
  previous_hash = block.previous_hash;
  data_text = block.data_text;
  difficulty = difficulty;
  timestamp = block.timestamp;
})
work_reply difficulty (err e) = err e
work_reply difficulty panic = panic

unfoldable pub handle_get_work : Text → ℕ → MiningPool → MiningPool × Outcome PoolError WorkResponse
unfolding work_reply
handle_get_work id now pool =
    let (pool', result) = get_work id now pool in
    (pool', work_reply pool'.blockchain.difficulty result)

-- An error of the pool becomes a response; the branch for a refusal with no error is never taken,
-- since the pool's answer is a reward or an error.
unfoldable pub submission_reply : I64 → Outcome PoolError I64 → Outcome PoolError SubmissionResponse
submission_reply block_index (ok reward) = ok (record {
  accepted = true;
  message = text "Block " ++ (format_int block_index ++ text " accepted");
  reward = reward;
})
submission_reply block_index (err e) =
    ok (record { accepted = false; message = error_text e; reward = 0 })
submission_reply block_index panic = panic

unfoldable pub handle_submit_work :
    (Text → Text)
    → Text
    → I64
    → I64
    → Text
    → ℕ
    → MiningPool
    → MiningPool × Outcome PoolError SubmissionResponse
unfolding submission_reply
handle_submit_work sha id block_index nonce hash now pool =
    let (pool', result) = submit_work sha id block_index nonce hash now pool in
    (pool', submission_reply block_index result)

-- int(x) of an int32.
unfoldable pub widen : I32 → I64
widen n = if is_neg32 n then n + (2 ^ 64 - 2 ^ 32) else n

unfoldable pub to_device : GpuDeviceMessage → GpuDeviceInfo
to_device dev = record {
  id = widen dev.id;
  name = dev.name;
  kind = dev.kind;
  memory = dev.memory;
  compute_units = widen dev.compute_units;
  available = dev.available;
}

unfoldable pub to_heartbeat : MinerStatus → Heartbeat
to_heartbeat req = record {
  hash_rate = req.hash_rate;
  cpu_usage = req.cpu_usage_percent;
  total_hashes = req.total_hashes;
  mining_time = (req.mining_time_seconds * 10 ^ 9) % 2 ^ 64;
  gpu_devices = map to_device req.gpu_devices;
  gpu_hash_rate = req.gpu_hash_rate;
  gpu_enabled = req.gpu_enabled;
  hybrid_mode = req.hybrid_mode;
}

abbrev pub or_default {ℓ} : {A : Type ℓ} → A → Outcome PoolError A → A
or_default d (ok a) = a
or_default d (err e) = d
or_default d panic = d

inactive_reply : PoolError → HeartbeatResponse
inactive_reply e =
    if text_eq (error_text e) (text "miner not registered")
    then record {
      active = false;
      message = text "Miner has been deleted from the pool";
      should_mine = false;
      cpu_throttle_percent = 0;
    }
    else record {
      active = false;
      message = error_text e;
      should_mine = false;
      cpu_throttle_percent = 0;
    }

-- The three calls of Heartbeat take the pool's lock one by one: `then₁` and `then₂` are what other
-- calls do to the pool between them.
heartbeat_reply :
    Text
    → (MiningPool → MiningPool)
    → (MiningPool → MiningPool)
    → MiningPool
    → Outcome PoolError (Unit {0})
    → MiningPool × Outcome PoolError HeartbeatResponse
unfolding inactive_reply
heartbeat_reply id then₁ then₂ pool (ok _) =
    let pool₁ = then₁ pool in
    let should_mine = or_default true (get_miner_status id pool₁) in
    let pool₂ = then₂ pool₁ in
    let cpu_throttle = or_default 0 (get_cpu_throttle id pool₂) in
    (
      pool₂,
      ok (record {
        active = true;
        message = text "Heartbeat received";
        should_mine = should_mine;
        cpu_throttle_percent = cpu_throttle;
      }),
    )
heartbeat_reply id then₁ then₂ pool (err e) = (pool, ok (inactive_reply e))
heartbeat_reply id then₁ then₂ pool panic = (pool, panic)

unfoldable pub handle_heartbeat :
    MinerStatus
    → (MiningPool → MiningPool)
    → (MiningPool → MiningPool)
    → ℕ
    → MiningPool
    → MiningPool × Outcome PoolError HeartbeatResponse
unfolding heartbeat_reply
handle_heartbeat req then₁ then₂ now pool =
    let (pool', result) = update_heartbeat_with_gpu req.miner_id (to_heartbeat req) now pool in
    heartbeat_reply req.miner_id then₁ then₂ pool' result

stop_reply : Outcome PoolError I64 → Outcome PoolError StopResponse
stop_reply (ok blocks) = ok (record {
  success = true;
  message = text "Miner stopped successfully";
  total_blocks_mined = blocks;
})
stop_reply (err e) = ok (record { success = false; message = error_text e; total_blocks_mined = 0 })
stop_reply panic = panic

unfoldable pub handle_stop_mining : Text → MiningPool → MiningPool × Outcome PoolError StopResponse
unfolding stop_reply
handle_stop_mining id pool = let (pool', result) = stop_miner id pool in (pool', stop_reply result)
