-- ===== src/Gpu/Races.antt =====
-- What mineBlockHybrid returns, by the signal that it reads first (client/main.go).
use red_team_coin.Base.{
  ℕ, ◌<◌, ◌≡◌, ◌⊎◌, true, false, Option, none, some, List, [], ◌∷◌, length, Text, I64, add64,
}
use red_team_coin.Rpc.{WorkResponse}
use red_team_coin.Client.{MineResult}
use red_team_coin.Client.Worker as Worker
use red_team_coin.Client.Worker.{Solves, nth_nonce}
use red_team_coin.Client.Search.{Solution}
use red_team_coin.Gpu.{Ran, returns, GpuMiner, Kernel}
use red_team_coin.Gpu.Search.{mine_block_gpu, Race, cancelled, gpu_first, cpu_first}
use red_team_coin.Gpu.Solutions.{IsFound}

module _ (sha : Text → Text) (work : WorkResponse) (cpu_start_nonce : I64) where
  -- No worker has passed a nonce that meets the difficulty: n workers, each from its own nonce on.
  abbrev pub AllMissed : ℕ → List (ℕ × ℕ) → Type 0
  AllMissed n [] = Unit
  AllMissed n ((worker, rounds) ∷ rest) =
      ((j : ℕ) → j < rounds → ¬ Solves sha work (nth_nonce n (add64 cpu_start_nonce worker) j))
      × AllMissed n rest

  -- A solution, or no worker has passed one.
  abbrev Decides : ℕ → List (ℕ × ℕ) → MineResult → Type 0
  Decides n schedule r =
      ((r.found ≡ true) × Solution sha work r.nonce r.hash)
      ⊎ ((r.found ≡ false) × AllMissed n schedule)

module _ (sha : Text → Text) (cuda open_cl : Kernel) (work : WorkResponse)
    (nonce_range cpu_start_nonce : I64) (gm : GpuMiner) where
  -- What the search returns, with the signal that comes first.
  pub data Answers : Race → Ran (Option (I64 × Text × I64)) → Type 0 where
    was_cancelled : Answers cancelled (returns (some (0, [], 0)))
    cpu_solved :
        (schedule : List (ℕ × ℕ)) (nonce : I64) (hash : Text) (hashes : I64)
        → Solution sha work nonce hash
        → Answers (cpu_first schedule) (returns (some (nonce, hash, hashes)))
    cpu_missed :
        (schedule : List (ℕ × ℕ)) (hashes : I64)
        → AllMissed sha work cpu_start_nonce (length schedule) schedule
        → Answers (cpu_first schedule) (returns (some (0, [], hashes)))
    gpu_found :
        (rounds : ℕ) (nonce : I64) (hash : Text) (hashes : I64)
        → IsFound sha cuda open_cl work nonce hash
        → Answers (gpu_first rounds) (returns (some (nonce, hash, hashes)))
    gpu_missed :
        (rounds : ℕ) (after : GpuMiner) (r : MineResult)
        → mine_block_gpu sha cuda open_cl work nonce_range rounds 0 0 gm ≡ returns (after, r)
        → r.found ≡ false
        → Answers (gpu_first rounds) (returns none)
