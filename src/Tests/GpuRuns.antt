-- ===== src/Tests/GpuRuns.antt =====
-- The theorems of the searches with a GPU on small inputs.
use red_team_coin.Base.{
  ◌+◌, ◌^◌, ◌<◌, ◌≤◌, ◌≡◌, ◌⊎◌, refl, true, false, [], ◌∷◌, ◌++◌, arith, ◌==◌, if◌then◌else◌, text,
  I64, format_int,
}
use red_team_coin.Rpc.{WorkResponse}
use red_team_coin.Gpu.{returns, GpuDevice, GpuMiner, Kernel, hit, missed, mine_cpu}
use red_team_coin.Gpu.Range.{Swept, mine_cpu-Swept}
use red_team_coin.Gpu.Counts.{IsCudaOnly}
use red_team_coin.Tests.Sample.{toy_sha}

abbrev pub gpu_job : WorkResponse
gpu_job = record {
  block_index = 1;
  previous_hash = text "00ab";
  data_text = text "Block data 1";
  difficulty = 3;
  timestamp = 1700000100;
}

mine_cpu-Swept_example :
    ((7 + 20 < 2 ^ 63) × Swept toy_sha gpu_job 7 (7 + 20) 0 (mine_cpu toy_sha gpu_job 7 20))
    ⊎ ((2 ^ 63 ≤ 7 + 20) × (mine_cpu toy_sha gpu_job 7 20 ≡ returns (0, [], 0)))
mine_cpu-Swept_example =
    mine_cpu-Swept toy_sha gpu_job (omega arith) 7 20 (omega arith) (omega arith)

-- A kernel that finds the first nonce of its range, at one difficulty.
abbrev pub toy_kernel : Kernel
toy_kernel content difficulty start_nonce nonce_range =
    if difficulty == 3
    then hit start_nonce (toy_sha (content ++ format_int start_nonce))
    else missed

abbrev pub no_kernel : Kernel
no_kernel content difficulty start_nonce nonce_range = missed

abbrev device : GpuDevice
device = record {
  id = 0;
  name = text "lab card";
  kind = text "CUDA";
  memory = 8589934592;
  compute_units = 40;
  available = true;
}

abbrev pub one_card : GpuMiner
one_card = record {
  devices = device ∷ [];
  running = true;
  hash_count = 12;
  cuda_miner = record { devices = device ∷ []; running = true };
  open_cl_miner = record { devices = []; running = false };
}

one_card-IsCudaOnly : IsCudaOnly one_card
one_card-IsCudaOnly = record {
  cuda_running = refl;
  cuda_devices = λ e. absurd (cc);
  no_open_cl = refl;
}

always_missed : (start : I64) → no_kernel (text "") gpu_job.difficulty start 1000 ≡ missed
always_missed start = refl
