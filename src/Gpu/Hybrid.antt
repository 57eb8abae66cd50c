-- ===== src/Gpu/Hybrid.antt =====
-- What mineBlockGPU and mineBlockHybrid return.
use red_team_coin.Base.{
  ℕ, zero, suc, ◌^◌, ◌<◌, ◌≡◌, refl, inl, inr, ◌⊎◌, true, false, none, some, List, [], ◌∷◌, map,
  arith, length, Text, I64, add64, is_neg32, Bool-cases,
}
use red_team_coin.Rpc.{WorkResponse}
use red_team_coin.Client.{MineResult}
use red_team_coin.Client.Worker as Worker
use red_team_coin.Client.Worker.{Solves, tests_solution, cpu_worker-Searched}
use red_team_coin.Gpu.{returns, GpuMiner, Kernel}
use red_team_coin.Gpu.Search.{
  mine_block_gpu, run_cpu_worker, coordinate, run_cpu_mining_coordinator, Race, cancelled,
  gpu_first, cpu_first, hybrid_answer, mine_block_hybrid,
}
use red_team_coin.Gpu.Solutions.{IsFound, IsTrue, gpu_mine_block-GoesWell}

module _ (sha : Text → Text) (cuda open_cl : Kernel) (work : WorkResponse)
    (small : work.difficulty < 2 ^ 31) where
  -- For work whose difficulty is not negative, mineBlockGPU returns after any number of rounds, from
  -- any nonce on and in any state of the GPU miner: what it has found is a nonce whose hash meets the
  -- difficulty, with that hash, or what a kernel has answered, and else its hash is empty.
  pub mine_block_gpu-IsTrue :
      (nonce_range : I64) (rounds : ℕ) (start_nonce total : I64) (gm : GpuMiner)
      → nonce_range < 2 ^ 64
      → start_nonce < 2 ^ 64
      → (gm' : GpuMiner) × (r : MineResult) × (mine_block_gpu sha cuda open_cl work nonce_range
            rounds start_nonce total gm
          ≡ returns (gm', r))
        × (((r.found ≡ true) × IsFound sha cuda open_cl work r.nonce r.hash)
            ⊎ ((r.found ≡ false) × (r.hash ≡ [])))
  unfolding mine_block_gpu
  mine_block_gpu-IsTrue nonce_range zero start_nonce total gm l s = (gm, _, refl, inr (refl, refl))
  mine_block_gpu-IsTrue nonce_range (suc rounds) start_nonce total gm l s =
      let (gm', r, ran, is_true) =
        gpu_mine_block-GoesWell sha cuda open_cl work small start_nonce nonce_range gm s l in
      elim (Bool-cases r.found) [
        | inl f ↦ rw (ran, f, mine_block_gpu) (gm', _, refl, inl (refl, is_true f))
        | inr f ↦
            rw (ran, f, mine_block_gpu)
              (mine_block_gpu-IsTrue nonce_range rounds (add64 start_nonce nonce_range)
                (add64 total r.hashes) gm' l (omega arith))
      ]

module _ (sha : Text → Text) (cuda open_cl : Kernel) (work : WorkResponse) where
  run_cpu_worker-IsTrue :
      (cpu_start_nonce : I64) (n : ℕ) (p : ℕ × ℕ)
      → IsTrue sha cuda open_cl work (run_cpu_worker sha work cpu_start_nonce n p)
  unfolding run_cpu_worker
  run_cpu_worker-IsTrue cpu_start_nonce n (worker, rounds) is_found =
      elim (cpu_worker-Searched sha work n rounds (add64 cpu_start_nonce worker) 0) [
        | Worker.hit k lt found at hash solves before ↦ inl (hash, solves)
        | Worker.miss found before ↦ absurd (cc)
      ]

  coordinate-IsTrue :
      (cpu_start_nonce total : I64) (n : ℕ) (schedule : List (ℕ × ℕ))
      → IsTrue sha cuda open_cl work
          (coordinate total (map (run_cpu_worker sha work cpu_start_nonce n) schedule))
  unfolding coordinate
  coordinate-IsTrue cpu_start_nonce total n [] = λ f. absurd (cc)
  coordinate-IsTrue cpu_start_nonce total n (p ∷ rest) =
      elim (Bool-cases (run_cpu_worker sha work cpu_start_nonce n p).found) [
        | inl f ↦ rw (f, coordinate) (λ _. run_cpu_worker-IsTrue cpu_start_nonce n p f)
        | inr f ↦
            rw (f, coordinate)
              (coordinate-IsTrue cpu_start_nonce
                (add64 total (run_cpu_worker sha work cpu_start_nonce n p).hashes) n rest)
      ]

  -- An answer without a hash, or with one that is found.
  abbrev pub IsAnswer : I64 × Text × I64 → Type 0
  IsAnswer answer = (answer.1 ≡ []) ⊎ IsFound sha cuda open_cl work answer.0 answer.1

  hybrid_answer-IsAnswer :
      (r : MineResult) → IsTrue sha cuda open_cl work r → IsAnswer (hybrid_answer r)
  unfolding hybrid_answer
  hybrid_answer-IsAnswer r is_true = elim (Bool-cases r.found) [
    | inl f ↦ rw f (inr (is_true f))
    | inr f ↦ rw f (inl refl)
  ]

module _ (sha : Text → Text) (cuda open_cl : Kernel) (work : WorkResponse)
    (small : work.difficulty < 2 ^ 31) where
  -- For work whose difficulty is not negative mineBlockHybrid returns, whichever search sends first
  -- and after however many rounds: its hash is empty, or it is that of its nonce and meets the
  -- difficulty, or a kernel has answered it. It has nothing to return only in the race that cannot be,
  -- when the GPU's search is to send first and has not found anything.
  pub mine_block_hybrid-IsAnswer :
      (nonce_range cpu_start_nonce : I64) (race : Race) (gm : GpuMiner)
      → nonce_range < 2 ^ 64
      → (mine_block_hybrid sha cuda open_cl nonce_range cpu_start_nonce work race gm ≡ returns none)
          × ((rounds : ℕ) × (race ≡ gpu_first rounds))
        ⊎ ((answer : I64 × Text × I64) × (mine_block_hybrid sha cuda open_cl nonce_range
                cpu_start_nonce work race gm
              ≡ returns (some answer))
            × IsAnswer sha cuda open_cl work answer)
  unfolding mine_block_hybrid run_cpu_mining_coordinator
  mine_block_hybrid-IsAnswer nonce_range cpu_start_nonce cancelled gm l =
      let natural : is_neg32 work.difficulty ≡ false = ground arith in
      rw (natural, mine_block_hybrid) (inr (_, refl, inl refl))
  mine_block_hybrid-IsAnswer nonce_range cpu_start_nonce (cpu_first schedule) gm l =
      let natural : is_neg32 work.difficulty ≡ false = ground arith in
      rw (natural, mine_block_hybrid)
        (inr (
          _,
          refl,
          hybrid_answer-IsAnswer sha cuda open_cl work _ (
              coordinate-IsTrue sha cuda open_cl work cpu_start_nonce 0 (length schedule) schedule),
        ))
  mine_block_hybrid-IsAnswer nonce_range cpu_start_nonce (gpu_first rounds) gm l =
      let natural : is_neg32 work.difficulty ≡ false = ground arith in
      let (gm', r, ran, outcome) =
        mine_block_gpu-IsTrue sha cuda open_cl work small nonce_range rounds 0 0 gm l
          (omega arith) in
      elim outcome [
        | inl (f, solution) ↦
            rw (natural, ran, f, mine_block_hybrid)
              (inr (_, refl, hybrid_answer-IsAnswer sha cuda open_cl work r (λ _. solution)))
        | inr (f, _) ↦ rw (natural, ran, f, mine_block_hybrid) (inl (refl, (rounds, refl)))
      ]
