-- ===== src/Tests/ClientRuns.antt =====
-- The theorems of the client and of the heartbeat on small inputs.
use red_team_coin.Base.{
  ℕ, ◌^◌, ◌<◌, ◌≡◌, ◌≢◌, refl, List, [], ◌∷◌, ◌++◌, arith, some, Text, text, I64, true, false,
  text_eq, format_int, decimal, digits_onto,
}
use red_team_coin.Base.Dict.{lookup, insert}
use red_team_coin.Outcome.{ok}
use red_team_coin.Chain as Chain
use red_team_coin.Chain.{
  hash_record, genesis_fields, new_blockchain, clamp_difficulty, get_latest_block, get_block_count,
}
use red_team_coin.Pool.{new_mining_pool, with_miner, report}
use red_team_coin.Pool.Registry.{set_miner, register_miner}
use red_team_coin.Pool.Work.{new_work_block, set_pending, assign_from, assign_work, get_work}
use red_team_coin.Pool.System.{start_system, run, step}
use red_team_coin.Rpc.{MinerStatus, WorkResponse, work_reply, handle_get_work, handle_submit_work}
use red_team_coin.Client.{
  calculate_hash, work_hash, cpu_worker, worker_result, keep_first, collect, mine_block,
}
use red_team_coin.Client.Worker.{Solves}
use red_team_coin.Client.Search.{mine_block_complete}
use red_team_coin.Client.Accepted.{mine_block-accepted}
use red_team_coin.Config.{is_empty}
use red_team_coin.Api.{Request}
use red_team_coin.Tests.Sample.{toy_sha, toy_sha-HexDigest, alice, lab, lab-IsSound, lab-IsAnchored}

-- What the lab's server replies to Alice 1700000100 seconds after the epoch.
abbrev job : WorkResponse
job = record {
  block_index = 1;
  previous_hash = toy_sha (text "01700000000Genesis Block00");
  data_text = text "Block data 1";
  difficulty = 3;
  timestamp = 1700000100;
}

lab-job : (handle_get_work alice 1700000100000000000 lab).1 ≡ ok job
unfolding handle_get_work work_reply get_work with_miner lookup run step register_miner start_system
    new_mining_pool report set_miner insert text_eq assign_work assign_from get_latest_block
    new_blockchain set_pending calculate_hash hash_record format_int decimal digits_onto
    new_work_block genesis_fields clamp_difficulty Chain.calculate_hash
lab-job = refl

lab-short : get_block_count lab.blockchain < 2 ^ 63
unfolding get_block_count run step register_miner lookup start_system new_mining_pool report
    set_miner insert text_eq new_blockchain
lab-short = omega arith

lab-queue : lab.work_queue ≡ []
unfolding run step register_miner lookup start_system new_mining_pool report set_miner insert
    text_eq
lab-queue = refl

-- Worker 1 answers first; worker 0 is stopped before its first hash.
abbrev two_workers : List (ℕ × ℕ)
two_workers = (1, 4) ∷ (0, 0) ∷ []

job-mined : mine_block toy_sha job two_workers ≡ some (1, (work_hash toy_sha job 1, 1))
unfolding mine_block collect is_empty keep_first worker_result cpu_worker calculate_hash format_int
    decimal digits_onto text_eq
job-mined = refl

job-hash : work_hash toy_sha job 1 ≢ []
unfolding calculate_hash
job-hash h = cc

mine_block-accepted_example :
    (handle_submit_work toy_sha alice job.block_index 1
      (work_hash toy_sha job 1)
      5
      (handle_get_work alice 1700000100000000000 lab).0).1
    ≡ ok (record {
      accepted = true;
      message = text "Block " ++ (format_int job.block_index ++ text " accepted");
      reward = 50;
    })
mine_block-accepted_example =
    mine_block-accepted toy_sha-HexDigest lab lab-IsSound lab-IsAnchored lab-short lab-queue alice
      1700000100000000000 5 job lab-job two_workers 1 (work_hash toy_sha job 1) 1 job-mined job-hash

job-solved : Solves toy_sha job 3
unfolding calculate_hash
job-solved = (omega arith, refl)

mine_block_complete_example :
    (nonce : I64) × (hash : Text) × (total : I64) × (mine_block toy_sha job two_workers
      ≡ some (nonce, (hash, total)))
    × (hash ≢ [])
mine_block_complete_example =
    mine_block_complete toy_sha job (omega arith) toy_sha-HexDigest two_workers 0 1 4 1 refl
      (omega arith) job-solved

abbrev beat : MinerStatus
beat = record {
  miner_id = alice;
  hash_rate = 1200;
  blocks_mined = 2;
  cpu_usage_percent = 0;
  total_hashes = 36000;
  mining_time_seconds = 30;
  gpu_devices = [];
  gpu_hash_rate = 0;
  gpu_enabled = false;
  hybrid_mode = false;
}

abbrev request : Request
request = record {
  authorization = text "Bearer 5ec2e7";
  method = text "POST";
  miner_body = some alice;
  throttle_body = some (alice, 40);
}
