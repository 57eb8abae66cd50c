-- ===== src/Client.antt =====
-- client/main.go: the proof-of-work search of the client on the CPU. A worker's rounds are the
-- times it passes its two stop signals; the environment chooses them, and the order in which the
-- workers' results arrive. Throttling and the printed progress only take time.
pub mod Worker
pub mod Collect
pub mod Search
pub mod Accepted
use red_team_coin.Base.{
  ℕ, zero, suc, Bool, true, false, ◌&&◌, Option, none, some, List, [], ◌∷◌, ◌++◌, leb,
  if◌then◌else◌, length, take, replicate, Text, text_eq, I32, I64, add64, is_neg32, format_int, map,
}
use red_team_coin.Config.{is_empty}
use red_team_coin.Rpc.{WorkResponse}

pub record MineResult : Type 0 where
  pub nonce : I64
  pub hash : Text
  pub hashes : I64
  pub found : Bool

module _ (sha : Text → Text) where
  unfoldable pub calculate_hash : I64 → I64 → Text → Text → I64 → Text
  calculate_hash index timestamp content previous_hash nonce = sha (
      format_int index
      ++ (format_int timestamp ++ (content ++ (previous_hash ++ format_int nonce))))

  -- The hash that the work asks for at a nonce.
  abbrev pub work_hash : WorkResponse → I64 → Text
  work_hash work nonce =
      calculate_hash work.block_index work.timestamp work.data_text work.previous_hash nonce

  -- The loop of cpuWorker from a nonce and a count of hashes on, for some rounds.
  unfoldable pub cpu_worker : WorkResponse → Text → ℕ → ℕ → I64 → I64 → MineResult
  cpu_worker work prefix num_workers zero nonce hashes = record {
    nonce = 0;
    hash = [];
    hashes = hashes;
    found = false;
  }
  cpu_worker work prefix num_workers (suc rounds) nonce hashes =
      let hash = work_hash work nonce in
      let rest =
        cpu_worker work prefix num_workers rounds (add64 nonce num_workers) (add64 hashes 1) in
      if leb work.difficulty (length hash) && text_eq (take work.difficulty hash) prefix
      then record { nonce = nonce; hash = hash; hashes = add64 hashes 1; found = true }
      else rest

  -- Each worker starts at its own number.
  unfoldable pub worker_result : WorkResponse → ℕ → ℕ × ℕ → MineResult
  worker_result work num_workers (worker, rounds) =
      cpu_worker work (replicate work.difficulty b'0') num_workers rounds worker 0

-- if res.found && foundResult.hash == "" { foundResult = res }
unfoldable pub keep_first : MineResult → MineResult → MineResult
keep_first found res = if res.found && is_empty found.hash then res else found

-- The loop of mineBlock over the results that arrive, with the result found so far and the total.
unfoldable pub collect : MineResult → I64 → List MineResult → I64 × (Text × I64)
collect found total [] =
    if is_empty found.hash then (0, ([], total)) else (found.nonce, (found.hash, total))
collect found total (res ∷ rest) = collect (keep_first found res) (add64 total res.hashes) rest

-- The zero value of mineResult.
abbrev pub no_result : MineResult
no_result = record { nonce = 0; hash = []; hashes = 0; found = false }

-- Each worker's number and rounds, in the order of arrival. strings.Repeat panics on a negative
-- count, which `none` stands for.
unfoldable pub mine_block :
    (Text → Text) → WorkResponse → List (ℕ × ℕ) → Option (I64 × (Text × I64))
mine_block sha work schedule =
    if is_neg32 work.difficulty
    then none
    else some (collect no_result 0 (map (worker_result sha work (length schedule)) schedule))
