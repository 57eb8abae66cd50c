-- ===== src/Gpu.antt =====
-- client/gpu.go, client/cuda.go and client/opencl.go. The CUDA and OpenCL kernels (client/mine.cu and
-- client/mine.cl, called through cgo) are arguments, with a hash as its hexadecimal text; so are the
-- devices, which Detect reads from the output of the vendors' tools. `Ran` tells a value from a panic
-- and from fuel that has run out.
pub mod Search
pub mod Range
pub mod Solutions
pub mod Hybrid
pub mod Races
pub mod Counts
pub mod Detect
pub mod Detected
use red_team_coin.Base.{
  ℕ, zero, suc, Bool, true, false, not, ◌&&◌, ◌||◌, Option, none, some, List, [], ◌∷◌, ◌++◌, leb,
  ◌==◌, if◌then◌else◌, length, take, replicate, Text, text, text_eq, I32, I64, add64, lt64,
  is_neg32, format_int, map,
}
use red_team_coin.Config.{is_empty}
use red_team_coin.Rpc.{WorkResponse}
use red_team_coin.Client.{MineResult, work_hash, cpu_worker, no_result}

pub data Ran (A : Type 0) : Type 0 where
  returns : A → Ran A
  panics : Ran A
  runs_out : Ran A

pub record GpuDevice : Type 0 where
  pub id : I64
  pub name : Text
  pub kind : Text
  pub memory : I64
  pub compute_units : I64
  pub available : Bool

-- A CUDAMiner or an OpenCLMiner.
pub record Card : Type 0 where
  pub devices : List GpuDevice
  pub running : Bool

pub record GpuMiner : Type 0 where
  pub devices : List GpuDevice
  pub running : Bool
  pub hash_count : I64
  pub cuda_miner : Card
  pub open_cl_miner : Card

-- What cuda_mine and opencl_mine leave: a code other than 0, a nonce with its hash, or neither.
pub data KernelAnswer : Type 0 where
  failed : KernelAnswer
  hit : I64 → Text → KernelAnswer
  missed : KernelAnswer

-- The block's text before the nonce, the difficulty, the first nonce and the number of nonces.
abbrev pub Kernel : Type 0
Kernel = Text → I32 → I64 → I64 → KernelAnswer

-- NewGPUMiner, with the devices that each kind of miner detects.
unfoldable pub new_gpu_miner : List GpuDevice → List GpuDevice → GpuMiner
new_gpu_miner cuda_devices open_cl_devices = record {
  devices = cuda_devices ++ open_cl_devices;
  running = false;
  hash_count = 0;
  cuda_miner = record { devices = cuda_devices; running = false };
  open_cl_miner = record { devices = open_cl_devices; running = false };
}

unfoldable pub has_devices : List GpuDevice → Bool
has_devices devices = not (length devices == 0)

-- Start of a CUDAMiner or an OpenCLMiner, and whether it succeeds.
unfoldable pub start_card : Card → Card × Bool
start_card card =
    if card.running || length card.devices == 0
    then (card, false)
    else (record card { running = true }, true)

unfoldable pub stop_card : Card → Card
stop_card card = record card { running = false }

-- GPUMiner.Start: an error of a card is only logged.
unfoldable pub start_gpu : GpuMiner → GpuMiner × Option Text
start_gpu gm =
    if gm.running
    then (gm, some (text "GPU miner already running"))
    else if not (has_devices gm.devices)
    then (gm, some (text "no GPUs detected"))
    else (
      record gm {
        running = true;
        cuda_miner =
            if has_devices gm.cuda_miner.devices
            then (start_card gm.cuda_miner).0
            else gm.cuda_miner;
        open_cl_miner =
            if has_devices gm.open_cl_miner.devices
            then (start_card gm.open_cl_miner).0
            else gm.open_cl_miner;
      },
      none,
    )

unfoldable pub stop_gpu : GpuMiner → GpuMiner
stop_gpu gm =
    if gm.running
    then record gm {
      running = false;
      cuda_miner = stop_card gm.cuda_miner;
      open_cl_miner = stop_card gm.open_cl_miner;
    }
    else gm

-- The text that the kernels get: all of the hashed text but the nonce.
unfoldable pub block_text : WorkResponse → Text
block_text work =
    format_int work.block_index
    ++ (format_int work.timestamp ++ (work.data_text ++ work.previous_hash))

module _ (sha : Text → Text) (work : WorkResponse) where
  -- The loop of mineCPU from a nonce and a count of hashes on. A slice up to a negative difficulty
  -- panics.
  unfoldable pub cpu_range : ℕ → I64 → I64 → I64 → Ran (I64 × Text × I64)
  cpu_range zero n end hashes = runs_out
  cpu_range (suc fuel) n end hashes =
      let rest = cpu_range fuel (add64 n 1) end (add64 hashes 1) in
      let hash = work_hash sha work n in
      if not (lt64 n end)
      then returns (0, [], hashes)
      else if is_neg32 work.difficulty
      then panics
      else if leb work.difficulty (length hash)
          && text_eq (take work.difficulty hash) (replicate work.difficulty b'0')
      then returns (n, hash, add64 hashes 1)
      else rest

  -- mineCPU. One turn for each nonce and one for the test that ends the loop are enough.
  unfoldable pub mine_cpu : I64 → I64 → Ran (I64 × Text × I64)
  mine_cpu start_nonce nonce_range =
      cpu_range (suc nonce_range) start_nonce (add64 start_nonce nonce_range) 0

  -- return n, h, hc, h != ""
  unfoldable pub from_cpu : Ran (I64 × Text × I64) → Ran MineResult
  from_cpu (returns (n, h, hc)) =
      returns (record { nonce = n; hash = h; hashes = hc; found = not (is_empty h) })
  from_cpu panics = panics
  from_cpu runs_out = runs_out

  unfoldable pub cuda_answer : I64 → I64 → KernelAnswer → Ran MineResult
  cuda_answer start_nonce nonce_range failed = from_cpu (mine_cpu start_nonce nonce_range)
  cuda_answer start_nonce nonce_range (hit n h) =
      returns (record { nonce = n; hash = h; hashes = nonce_range; found = true })
  cuda_answer start_nonce nonce_range missed =
      returns (record { nonce = 0; hash = []; hashes = nonce_range; found = false })

  unfoldable pub open_cl_answer : I64 → I64 → KernelAnswer → Ran MineResult
  open_cl_answer start_nonce nonce_range (hit n h) =
      returns (record { nonce = n; hash = h; hashes = nonce_range; found = true })
  open_cl_answer start_nonce nonce_range failed = from_cpu (mine_cpu start_nonce nonce_range)
  open_cl_answer start_nonce nonce_range missed = from_cpu (mine_cpu start_nonce nonce_range)

  -- The test of both MineBlock methods before the kernel is called.
  unfoldable pub if_running : Card → Ran MineResult → Ran MineResult
  if_running card result =
      if not card.running || length card.devices == 0 then returns no_result else result

  unfoldable pub cuda_mine_block : Kernel → Card → I64 → I64 → Ran MineResult
  cuda_mine_block kernel card start_nonce nonce_range = if_running card (
      cuda_answer start_nonce nonce_range
        (kernel (block_text work) work.difficulty start_nonce nonce_range))

  unfoldable pub open_cl_mine_block : Kernel → Card → I64 → I64 → Ran MineResult
  open_cl_mine_block kernel card start_nonce nonce_range = if_running card (
      open_cl_answer start_nonce nonce_range
        (kernel (block_text work) work.difficulty start_nonce nonce_range))

unfoldable pub count_hashes : I64 → GpuMiner → GpuMiner
count_hashes hashes gm = record gm { hash_count = add64 gm.hash_count hashes }

module _ (sha : Text → Text) (cuda open_cl : Kernel) (work : WorkResponse) where
  -- The part of GPUMiner.MineBlock for OpenCL.
  unfoldable pub then_open_cl : I64 → I64 → GpuMiner → Ran (GpuMiner × MineResult)
  then_open_cl start_nonce nonce_range gm =
      if has_devices gm.open_cl_miner.devices
      then elim (open_cl_mine_block sha work open_cl gm.open_cl_miner start_nonce nonce_range) [
        | returns r ↦ returns (count_hashes r.hashes gm, r)
        | panics ↦ panics
        | runs_out ↦ runs_out
      ]
      else returns (gm, no_result)

  -- GPUMiner.MineBlock.
  unfoldable pub gpu_mine_block : I64 → I64 → GpuMiner → Ran (GpuMiner × MineResult)
  gpu_mine_block start_nonce nonce_range gm =
      if has_devices gm.cuda_miner.devices
      then elim (cuda_mine_block sha work cuda gm.cuda_miner start_nonce nonce_range) [
        | returns r ↦
            if r.found
            then returns (count_hashes r.hashes gm, r)
            else then_open_cl start_nonce nonce_range (count_hashes r.hashes gm)
        | panics ↦ panics
        | runs_out ↦ runs_out
      ]
      else then_open_cl start_nonce nonce_range gm
