-- ===== src/Gpu/Solutions.antt =====
-- What the searches with a GPU return: a solution, or the answer of a kernel.
use red_team_coin.Base.{
  ℕ, zero, suc, ◌+◌, ◌-◌, ◌%◌, ◌^◌, ◌<◌, ◌≡◌, ◌≢◌, refl, inl, inr, ◌⊎◌, true, false, not, ◌&&◌,
  ◌||◌, [], arith, leb, ◌==◌, length, take, replicate, Text, text_eq, I64, add64, lt64, is_neg32,
  Bool-cases,
}
use red_team_coin.Config.Server.{is_empty_iff}
use red_team_coin.Rpc.{WorkResponse}
use red_team_coin.Client.{MineResult, no_result, work_hash}
use red_team_coin.Client.Worker.{tests_solution}
use red_team_coin.Client.Search.{Solution}
use red_team_coin.Gpu.{
  Ran, returns, Card, GpuMiner, Kernel, KernelAnswer, failed, hit, missed, has_devices, block_text,
  cpu_range, mine_cpu, from_cpu, cuda_answer, open_cl_answer, if_running, cuda_mine_block,
  open_cl_mine_block, then_open_cl, gpu_mine_block,
}

-- What a kernel answered for some nonces of the work.
abbrev pub IsHit : Kernel → WorkResponse → I64 → Text → Type 0
IsHit kernel work nonce hash =
    (start_nonce nonce_range : I64) × (kernel (block_text work) work.difficulty start_nonce
        nonce_range
      ≡ hit nonce hash)

-- A solution, or what a kernel answered, which the code passes on unchecked.
abbrev pub IsFound : (Text → Text) → Kernel → Kernel → WorkResponse → I64 → Text → Type 0
IsFound sha cuda open_cl work nonce hash =
    Solution sha work nonce hash ⊎ (IsHit cuda work nonce hash ⊎ IsHit open_cl work nonce hash)

module _ (sha : Text → Text) (cuda open_cl : Kernel) (work : WorkResponse) where
  -- What is found is a solution or the answer of a kernel.
  abbrev pub IsTrue : MineResult → Type 0
  IsTrue r = r.found ≡ true → IsFound sha cuda open_cl work r.nonce r.hash

  abbrev GoesWell : Ran MineResult → Type 0
  GoesWell run = (r : MineResult) × (run ≡ returns r) × IsTrue r

gap-next :
    (n end : I64) (fuel : ℕ)
    → n < 2 ^ 64
    → end < 2 ^ 64
    → n ≢ end
    → (end + 2 ^ 64 - n) % 2 ^ 64 < suc fuel
    → (end + 2 ^ 64 - add64 n 1) % 2 ^ 64 < fuel
gap-next n end fuel a b apart f = ground arith

module _ (sha : Text → Text) (work : WorkResponse) (small : work.difficulty < 2 ^ 31) where
  cpu_range-returns :
      (fuel : ℕ) (n end hashes : I64)
      → n < 2 ^ 64
      → end < 2 ^ 64
      → (end + 2 ^ 64 - n) % 2 ^ 64 < fuel
      → (m : I64) × (hash : Text) × (tried : I64) × (cpu_range sha work fuel n end hashes
          ≡ returns (m, hash, tried))
        × (hash ≢ [] → Solution sha work m hash)
  unfolding cpu_range
  cpu_range-returns zero n end hashes a b f = absurd (omega arith)
  cpu_range-returns (suc fuel) n end hashes a b f = elim (Bool-cases (lt64 n end)) [
    | inr ended ↦ rw (ended, cpu_range) (0, [], hashes, refl, λ ne. absurd (ne refl))
    | inl more ↦
        let natural : is_neg32 work.difficulty ≡ false = ground arith in
        let test = tests_solution sha work n in
        let apart : n ≢ end = λ e. absurd (ground arith) in
        elim (Bool-cases (
          leb work.difficulty (length (work_hash sha work n))
          && text_eq (take work.difficulty (work_hash sha work n))
              (replicate work.difficulty b'0'))) [
                | inl e ↦ rw (more, natural, e, cpu_range) (n, _, _, refl, λ ne. (refl, test.0 e))
                | inr e ↦
                    rw (more, natural, e, cpu_range)
                      (cpu_range-returns fuel (add64 n 1) end (add64 hashes 1) (omega arith) b
                        (gap-next n end fuel a b apart f))
              ]
  ]

module _ (sha : Text → Text) (cuda open_cl : Kernel) (work : WorkResponse)
    (small : work.difficulty < 2 ^ 31) where
  from_cpu-GoesWell :
      (start_nonce nonce_range : I64)
      → start_nonce < 2 ^ 64
      → nonce_range < 2 ^ 64
      → GoesWell sha cuda open_cl work
          (from_cpu sha work (mine_cpu sha work start_nonce nonce_range))
  unfolding from_cpu mine_cpu
  from_cpu-GoesWell start_nonce nonce_range s r =
      let (m, hash, tried, e, true_hash) =
        cpu_range-returns sha work small (suc nonce_range) start_nonce
          (add64 start_nonce nonce_range) 0 s (omega arith) (omega arith) in
      let empty = is_empty_iff hash in
      rw (e, from_cpu)
        (_, refl, λ is_found. inl (true_hash (λ nil. absurd (cc (is_found, empty.1 nil)))))

  module _ (start_nonce nonce_range : I64) (s : start_nonce < 2 ^ 64)
      (r : nonce_range < 2 ^ 64) where
    cuda_answer-GoesWell :
        (answer : KernelAnswer)
        → cuda (block_text work) work.difficulty start_nonce nonce_range ≡ answer
        → GoesWell sha cuda open_cl work (cuda_answer sha work start_nonce nonce_range answer)
    unfolding cuda_answer
    cuda_answer-GoesWell failed e = from_cpu-GoesWell start_nonce nonce_range s r
    cuda_answer-GoesWell (hit n h) e = (_, refl, λ _. inr (inl (start_nonce, nonce_range, e)))
    cuda_answer-GoesWell missed e = (_, refl, λ f. absurd (cc))

    open_cl_answer-GoesWell :
        (answer : KernelAnswer)
        → open_cl (block_text work) work.difficulty start_nonce nonce_range ≡ answer
        → GoesWell sha cuda open_cl work (open_cl_answer sha work start_nonce nonce_range answer)
    unfolding open_cl_answer
    open_cl_answer-GoesWell failed e = from_cpu-GoesWell start_nonce nonce_range s r
    open_cl_answer-GoesWell (hit n h) e = (_, refl, λ _. inr (inr (start_nonce, nonce_range, e)))
    open_cl_answer-GoesWell missed e = from_cpu-GoesWell start_nonce nonce_range s r

    if_running-GoesWell :
        (card : Card) (run : Ran MineResult)
        → GoesWell sha cuda open_cl work run
        → GoesWell sha cuda open_cl work (if_running sha work card run)
    unfolding if_running
    if_running-GoesWell card run well =
        elim (Bool-cases (not card.running || length card.devices == 0)) [
          | inl e ↦ rw e (_, refl, λ f. absurd (cc))
          | inr e ↦ rw e well
        ]

module _ (sha : Text → Text) (cuda open_cl : Kernel) (work : WorkResponse)
    (small : work.difficulty < 2 ^ 31) where
  abbrev pub GoesWellGpu : Ran (GpuMiner × MineResult) → Type 0
  GoesWellGpu run =
      (gm : GpuMiner) × (r : MineResult) × (run ≡ returns (gm, r)) × IsTrue sha cuda open_cl work r

  then_open_cl-GoesWell :
      (start_nonce nonce_range : I64) (gm : GpuMiner)
      → start_nonce < 2 ^ 64
      → nonce_range < 2 ^ 64
      → GoesWellGpu (then_open_cl sha cuda open_cl work start_nonce nonce_range gm)
  unfolding then_open_cl open_cl_mine_block
  then_open_cl-GoesWell start_nonce nonce_range gm s l =
      elim (Bool-cases (has_devices gm.open_cl_miner.devices)) [
        | inr e ↦ rw e (gm, no_result, refl, λ f. absurd (cc))
        | inl e ↦
            let (r, ran, is_true) =
              if_running-GoesWell sha cuda open_cl work small start_nonce nonce_range s l
                gm.open_cl_miner _
                (open_cl_answer-GoesWell sha cuda open_cl work small start_nonce nonce_range s l _
                  refl) in
            rw (e, ran) (_, r, refl, is_true)
      ]

  pub gpu_mine_block-GoesWell :
      (start_nonce nonce_range : I64) (gm : GpuMiner)
      → start_nonce < 2 ^ 64
      → nonce_range < 2 ^ 64
      → GoesWellGpu (gpu_mine_block sha cuda open_cl work start_nonce nonce_range gm)
  unfolding gpu_mine_block cuda_mine_block
  gpu_mine_block-GoesWell start_nonce nonce_range gm s l =
      elim (Bool-cases (has_devices gm.cuda_miner.devices)) [
        | inr e ↦ rw e (then_open_cl-GoesWell start_nonce nonce_range gm s l)
        | inl e ↦
            let (r, ran, is_true) =
              if_running-GoesWell sha cuda open_cl work small start_nonce nonce_range s l
                gm.cuda_miner _
                (cuda_answer-GoesWell sha cuda open_cl work small start_nonce nonce_range s l _
                  refl) in
            elim (Bool-cases r.found) [
              | inl f ↦ rw (e, ran, f) (_, r, refl, is_true)
              | inr f ↦ rw (e, ran, f) (then_open_cl-GoesWell start_nonce nonce_range _ s l)
            ]
      ]
