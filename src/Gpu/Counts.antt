-- ===== src/Gpu/Counts.antt =====
-- What the GPU miner counts, and what its searches report.
use red_team_coin.Base.{
  ℕ, zero, suc, ◌+◌, ◌*◌, ◌%◌, ◌^◌, ◌<◌, ◌≡◌, ◌≢◌, refl, ap, ◌∙◌, true, false, [], arith, ◌==◌,
  ==_iff, length, Text, I64, add64,
}
use red_team_coin.Rpc.{WorkResponse}
use red_team_coin.Client.{MineResult, no_result}
use red_team_coin.Gpu.{
  Ran, returns, GpuMiner, Kernel, missed, has_devices, block_text, cuda_answer, if_running,
  cuda_mine_block, count_hashes, then_open_cl, gpu_mine_block,
}
use red_team_coin.Gpu.Search.{mine_block_gpu}

-- A kernel's hit is the hash of the text with the nonce written after it, and meets the difficulty.

-- A GPU miner with CUDA devices only, started.
pub record IsCudaOnly (gm : GpuMiner) : Type 0 where
  pub cuda_running : gm.cuda_miner.running ≡ true
  pub cuda_devices : length gm.cuda_miner.devices ≢ 0
  pub no_open_cl : length gm.open_cl_miner.devices ≡ 0

module _ (sha : Text → Text) (cuda open_cl : Kernel) (work : WorkResponse) where
  cuda_miss :
      (nonce_range start_nonce : I64) (gm : GpuMiner)
      → IsCudaOnly gm
      → cuda (block_text work) work.difficulty start_nonce nonce_range ≡ missed
      → gpu_mine_block sha cuda open_cl work start_nonce nonce_range gm
        ≡ returns (count_hashes nonce_range gm, no_result)
  unfolding gpu_mine_block then_open_cl cuda_mine_block if_running cuda_answer has_devices
      count_hashes
  cuda_miss nonce_range start_nonce gm only m =
      let some_cuda : length gm.cuda_miner.devices == 0 ≡ false =
        ground (arith, only.cuda_devices, ==_iff (length gm.cuda_miner.devices) 0) in
      simp (some_cuda, only.cuda_running, m, only.no_open_cl) refl

  counted : GpuMiner → I64 → I64 → Ran (GpuMiner × MineResult)
  counted gm total n =
      returns (
        record gm { hash_count = n },
        record { nonce = 0; hash = []; hashes = total; found = false },
      )

  -- With CUDA devices only, rounds in which the kernel runs and finds nothing add their range of
  -- nonces to the miner's counter, and nothing to the number of hashes that mineBlockGPU reports.
  pub mine_block_gpu-missed :
      (nonce_range : I64) (rounds : ℕ) (start_nonce total : I64) (gm : GpuMiner)
      → IsCudaOnly gm
      → gm.hash_count < 2 ^ 64
      → total < 2 ^ 64
      → ((start : I64) → cuda (block_text work) work.difficulty start nonce_range ≡ missed)
      → mine_block_gpu sha cuda open_cl work nonce_range rounds start_nonce total gm
        ≡ returns (
          record gm { hash_count = (gm.hash_count + rounds * nonce_range) % 2 ^ 64 },
          record { nonce = 0; hash = []; hashes = total; found = false },
        )
  unfolding mine_block_gpu count_hashes counted
  mine_block_gpu-missed nonce_range zero start_nonce total gm only h t m =
      ap (λ n. counted gm total n) (omega (arith, h))
  mine_block_gpu-missed nonce_range (suc rounds) start_nonce total gm only h t m =
      let gm' = count_hashes nonce_range gm in
      let same : add64 total 0 ≡ total = omega arith in
      let sum : ((gm.hash_count + nonce_range) % 2 ^ 64 + rounds * nonce_range) % 2 ^ 64
          ≡ (gm.hash_count + suc rounds * nonce_range) % 2 ^ 64 =
        omega arith in
      let only' : IsCudaOnly gm' = record {
        cuda_running = only.cuda_running;
        cuda_devices = only.cuda_devices;
        no_open_cl = only.no_open_cl;
      } in
      rw (cuda_miss nonce_range start_nonce gm only (m start_nonce), same, mine_block_gpu)
        (mine_block_gpu-missed nonce_range rounds (add64 start_nonce nonce_range) total gm' only'
            (omega arith) t m
          ∙ ap (λ n. counted gm total n) sum)
