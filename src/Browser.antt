-- ===== src/Browser.antt =====
-- web-wasm/miner.go: the miner in the browser, with the calls that JavaScript makes of it. The
-- arguments arrive converted, the callbacks are JavaScript's, and `rate` is the division of the count
-- of hashes by the time that has passed. A work unit has the fields of the client's work.
pub mod Sweep
use red_team_coin.Base.{
  ℕ, zero, suc, ◌+◌, ◌-◌, ◌%◌, ◌^◌, Bool, true, false, not, ◌&&◌, Option, none, some, [], leb,
  if◌then◌else◌, length, take, replicate, Text, text_eq, I64, add64, lt64, is_neg32,
}
use red_team_coin.Pool.{Float64}
use red_team_coin.Rpc.{WorkResponse}
use red_team_coin.Client.{MineResult, work_hash}
use red_team_coin.Gpu.{Ran, returns, panics, runs_out}

pub record WebMiner : Type 0 where
  pub running : Bool
  pub threads : I64
  pub throttle : Float64
  pub hash_rate : I64
  pub total_hashes : I64
  pub blocks_found : I64
  pub start_time : ℕ
  pub current_work : Option WorkResponse
  pub current_nonce : I64

-- The object that main makes, with the float64 0.8.
unfoldable pub new_web_miner : Float64 → WebMiner
new_web_miner default_throttle = record {
  running = false;
  threads = 4;
  throttle = default_throttle;
  hash_rate = 0;
  total_hashes = 0;
  blocks_found = 0;
  start_time = 0;
  current_work = none;
  current_nonce = 0;
}

-- start, with the settings that are given, and whether it succeeds.
unfoldable pub start : Option I64 → Option Float64 → ℕ → WebMiner → WebMiner × Bool
start threads throttle now m = if m.running then (m, false) else (
  record m {
    threads = elim threads [ none ↦ m.threads | some n ↦ n ];
    throttle = elim throttle [ none ↦ m.throttle | some x ↦ x ];
    running = true;
    start_time = now;
  },
  true,
)

-- stop, with the hashes and the blocks that it answers.
unfoldable pub stop : WebMiner → WebMiner × Option (I64 × I64)
stop m =
    if not m.running
    then (m, none)
    else (record m { running = false }, some (m.total_hashes, m.blocks_found))

unfoldable pub set_work : WorkResponse → WebMiner → WebMiner
set_work work m = record m { current_work = some work; current_nonce = 0 }

unfoldable pub set_threads : I64 → WebMiner → WebMiner
set_threads threads m = record m { threads = threads }

unfoldable pub set_throttle : Float64 → WebMiner → WebMiner
set_throttle throttle m = record m { throttle = throttle }

module _ (sha : Text → Text) (rate : I64 → I64) (work : WorkResponse) where
  -- The loop of mineNonceRange from a nonce and a count of hashes on. A slice up to a negative
  -- difficulty panics.
  unfoldable pub mine_range : ℕ → I64 → I64 → I64 → WebMiner → Ran (WebMiner × MineResult)
  mine_range zero nonce end hashes m = runs_out
  mine_range (suc fuel) nonce end hashes m =
      let counted = record m { total_hashes = add64 m.total_hashes 1; current_nonce = nonce } in
      let rest = mine_range fuel (add64 nonce 1) end (add64 hashes 1) counted in
      let hash = work_hash sha work nonce in
      if not (lt64 nonce end)
      then returns (
        record m { hash_rate = rate hashes },
        record { nonce = 0; hash = []; hashes = hashes; found = false },
      )
      else if is_neg32 work.difficulty
      then panics
      else if leb work.difficulty (length hash)
          && text_eq (take work.difficulty hash) (replicate work.difficulty b'0')
      then returns (
        record counted { blocks_found = add64 m.blocks_found 1; hash_rate = rate (add64 hashes 1) },
        record { nonce = nonce; hash = hash; hashes = add64 hashes 1; found = true },
      )
      else rest

  -- mineNonceRange. One turn for each nonce and one for the test that ends the loop are enough.
  unfoldable pub mine_nonce_range : I64 → I64 → WebMiner → Ran (WebMiner × MineResult)
  mine_nonce_range start_nonce end_nonce m =
      mine_range (suc ((end_nonce + 2 ^ 64 - start_nonce) % 2 ^ 64)) start_nonce end_nonce 0 m
