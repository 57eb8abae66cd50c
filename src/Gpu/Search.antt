-- ===== src/Gpu/Search.antt =====
-- The searches of client/main.go that use the GPU miner: mineBlockGPU and mineBlockHybrid.
use red_team_coin.Base.{
  ℕ, zero, suc, false, Option, none, some, List, [], ◌∷◌, if◌then◌else◌, length, replicate, Text,
  I64, add64, is_neg32, map,
}
use red_team_coin.Rpc.{WorkResponse}
use red_team_coin.Client.{MineResult, cpu_worker}
use red_team_coin.Gpu.{Ran, returns, panics, runs_out, GpuMiner, Kernel, gpu_mine_block}

module _ (sha : Text → Text) (cuda open_cl : Kernel) (work : WorkResponse) where
  -- The loops of mineBlockGPU and of runGPUMiner: `rounds` is how often they run before the context
  -- ends, the miner stops, or the other searches have finished.
  unfoldable pub mine_block_gpu : I64 → ℕ → I64 → I64 → GpuMiner → Ran (GpuMiner × MineResult)
  mine_block_gpu nonce_range zero start_nonce total gm =
      returns (gm, record { nonce = 0; hash = []; hashes = total; found = false })
  mine_block_gpu nonce_range (suc rounds) start_nonce total gm =
      elim (gpu_mine_block sha cuda open_cl work start_nonce nonce_range gm) [
        | panics ↦ panics
        | runs_out ↦ runs_out
        | returns (gm', r) ↦
            let total' = add64 total r.hashes in
            if r.found
            then returns (gm', record r { hashes = total' })
            else mine_block_gpu nonce_range rounds (add64 start_nonce nonce_range) total' gm'
      ]

-- runCPUWorker in its rounds, with cfg.GPU.CPUStartNonce.
unfoldable pub run_cpu_worker : (Text → Text) → WorkResponse → I64 → ℕ → ℕ × ℕ → MineResult
run_cpu_worker sha work cpu_start_nonce num_workers (worker, rounds) =
    cpu_worker sha work (replicate work.difficulty b'0') num_workers rounds
      (add64 cpu_start_nonce worker) 0

-- The loop of runCPUMiningCoordinator over the results that arrive.
unfoldable pub coordinate : I64 → List MineResult → MineResult
coordinate total [] = record { nonce = 0; hash = []; hashes = total; found = false }
coordinate total (res ∷ rest) =
    let total' = add64 total res.hashes in
    let others = coordinate total' rest in
    if res.found then record res { hashes = total' } else others

unfoldable pub run_cpu_mining_coordinator :
    (Text → Text) → WorkResponse → I64 → List (ℕ × ℕ) → MineResult
run_cpu_mining_coordinator sha work cpu_start_nonce schedule =
    coordinate 0 (map (run_cpu_worker sha work cpu_start_nonce (length schedule)) schedule)

-- Which signal mineBlockHybrid reads first, with the rounds of the search that sends it.
pub data Race : Type 0 where
  cancelled : Race
  gpu_first : ℕ → Race
  cpu_first : List (ℕ × ℕ) → Race

unfoldable pub hybrid_answer : MineResult → I64 × Text × I64
hybrid_answer res = if res.found then (res.nonce, res.hash, res.hashes) else (0, [], res.hashes)

-- mineBlockHybrid: `none` for a race that cannot be, since runGPUMiner sends nothing without a
-- solution, and a panic for a negative count in strings.Repeat.
module _ (sha : Text → Text) (cuda open_cl : Kernel) (nonce_range cpu_start_nonce : I64)
    (work : WorkResponse) where
  unfoldable pub mine_block_hybrid : Race → GpuMiner → Ran (Option (I64 × Text × I64))
  mine_block_hybrid race gm = if is_neg32 work.difficulty then panics else elim race [
    | cancelled ↦ returns (some (0, [], 0))
    | cpu_first schedule ↦
        returns
          (some (hybrid_answer (run_cpu_mining_coordinator sha work cpu_start_nonce schedule)))
    | gpu_first rounds ↦ elim (mine_block_gpu sha cuda open_cl work nonce_range rounds 0 0 gm) [
      | panics ↦ panics
      | runs_out ↦ runs_out
      | returns (gm', res) ↦ returns (if res.found then some (hybrid_answer res) else none)
    ]
  ]
