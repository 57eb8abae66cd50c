-- ===== src/Tests/PoolRuns.antt =====
-- The theorems of the pool and of the gRPC handlers on small inputs.
use red_team_coin.Base.{
  ℕ, ◌^◌, ◌<◌, ◌≡◌, ◌≢◌, refl, List, [], ◌∷◌, arith, none, some, Text, text, I64, add64, text_eq,
  format_int, decimal, digits_onto,
}
use red_team_coin.Base.Dict.{lookup, insert, delete, delete_where}
use red_team_coin.Outcome.{ok, err}
use red_team_coin.Chain.{
  Block, calculate_hash, hash_record, genesis_fields, new_blockchain, clamp_difficulty,
  get_latest_block, get_block_count, is_valid_new_block, check_difficulty, zero_prefix, add_block,
  append_if_valid,
}
use red_team_coin.Chain.Links.{Link, MeetsDifficulty}
use red_team_coin.Pool.{
  MinerRecord, MiningPool, block_is_stale, block_index_mismatch, new_mining_pool, with_miner,
  report,
}
use red_team_coin.Pool.Registry.{new_miner, set_miner, register_miner}
use red_team_coin.Pool.Work.{
  new_work_block, set_pending, assign_from, assign_work, get_work, credit_miner, settle_submission,
  solve, submit_solved, submit_work, offer_work, produce_work,
}
use red_team_coin.Pool.System.{
  Call, registers, gets_work, submits, generator_ticks, generator_sends, start_system, run, step,
  tick_generator, send_generated,
}
use red_team_coin.Pool.Invariant.{IsSound}
use red_team_coin.Pool.Returns.{get_work-Returns}
use red_team_coin.Pool.Reachable.{start-IsSound, run-IsSound}
use red_team_coin.Pool.Submission.{Submission, submit_work_cases}
use red_team_coin.Pool.Effects.{OnlyWorkOf, Rewarded, submit_work-accepted, submit_work-rejected}
use red_team_coin.Pool.Handed.{Hands, get_work-Hands}
use red_team_coin.Pool.Growth.{Grows, run-Grows}
use red_team_coin.Pool.Traceable.{IsTraceable, run-IsTraceable}
use red_team_coin.Pool.Freshness.{Follows, get_work-Follows}
use red_team_coin.Pool.Payment.{get_work-submit_work, get_work_stale}
use red_team_coin.Tests.Sample.{
  toy_sha, toy_sha-HexDigest, start, alice, bob, lab, lab-IsSound, lab-IsAnchored,
}

abbrev genesis : Block
genesis = record (genesis_fields 1700000000) {
  hash = calculate_hash toy_sha (genesis_fields 1700000000);
}

-- 1700000100 seconds, in nanoseconds.
abbrev at_work : ℕ
at_work = 1700000100000000000

abbrev handed_out : Block
handed_out = new_work_block genesis at_work

lab-latest : get_latest_block lab.blockchain ≡ some genesis
unfolding get_latest_block run step register_miner lookup start_system new_mining_pool report
    set_miner insert text_eq new_blockchain
lab-latest = refl

lab-work : (get_work alice at_work lab).1 ≡ ok handed_out
unfolding get_work with_miner lookup run step register_miner start_system new_mining_pool report
    set_miner insert text_eq assign_work assign_from get_latest_block new_blockchain
lab-work = refl

lab-short : get_block_count lab.blockchain < 2 ^ 63
unfolding get_block_count run step register_miner lookup start_system new_mining_pool report
    set_miner insert text_eq new_blockchain
lab-short = omega arith

lab-queue : lab.work_queue ≡ []
unfolding run step register_miner lookup start_system new_mining_pool report set_miner insert
    text_eq
lab-queue = refl

handed_out-MeetsDifficulty :
    MeetsDifficulty lab.blockchain.difficulty (calculate_hash toy_sha (solve alice 9 [] handed_out))
unfolding run calculate_hash step hash_record register_miner format_int lookup solve start_system
    new_work_block new_mining_pool genesis_fields report decimal set_miner digits_onto insert
    text_eq new_blockchain clamp_difficulty
handed_out-MeetsDifficulty = (omega arith, refl)

get_work-submit_work_example :
    (submit_work toy_sha alice handed_out.index 9
      (calculate_hash toy_sha (solve alice 9 [] handed_out))
      5
      (get_work alice at_work lab).0).1
    ≡ ok 50
get_work-submit_work_example =
    get_work-submit_work toy_sha-HexDigest lab lab-IsSound lab-IsAnchored lab-short lab-queue alice
      9 at_work 5 handed_out lab-work handed_out-MeetsDifficulty

-- Alice has work to do.
abbrev busy : MiningPool
busy = (get_work alice at_work lab).0

busy-IsSound : IsSound toy_sha busy
busy-IsSound = (get_work-Returns lab lab-IsSound alice at_work).0

abbrev solved : Text
solved = calculate_hash toy_sha (solve alice 9 [] handed_out)

busy-pays : (submit_work toy_sha alice handed_out.index 9 solved 5 busy).1 ≡ ok 50
busy-pays =
    get_work-submit_work toy_sha-HexDigest lab lab-IsSound lab-IsAnchored lab-short lab-queue alice
      9 at_work 5 handed_out lab-work handed_out-MeetsDifficulty

submit_work_cases_example : Submission toy_sha alice handed_out.index 9 solved 5 busy
submit_work_cases_example =
    submit_work_cases toy_sha-HexDigest busy busy-IsSound alice handed_out.index 9 solved 5

submit_work-accepted_example :
    (b latest : Block) × (◌≡◌ {A = I64} 50 50)
    × (b.index ≡ handed_out.index)
    × (b.nonce ≡ 9)
    × (b.hash ≡ solved)
    × (b.mined_by ≡ alice)
    × (get_latest_block busy.blockchain ≡ some latest)
    × Link toy_sha busy.blockchain.difficulty latest b
    × Rewarded alice b 5 busy (submit_work toy_sha alice handed_out.index 9 solved 5 busy).0
submit_work-accepted_example =
    submit_work-accepted toy_sha-HexDigest busy busy-IsSound alice handed_out.index 9 solved 5 50
      busy-pays

busy-mismatch : (submit_work toy_sha alice 7 9 solved 5 busy).1 ≡ err block_index_mismatch
unfolding submit_work get_work with_miner lookup run step register_miner start_system
    new_mining_pool report set_miner insert text_eq assign_work assign_from get_latest_block
    new_blockchain set_pending new_work_block genesis_fields
busy-mismatch = refl

submit_work-rejected_example : OnlyWorkOf alice busy (submit_work toy_sha alice 7 9 solved 5 busy).0
submit_work-rejected_example =
    submit_work-rejected toy_sha-HexDigest busy busy-IsSound alice 7 9 solved 5 block_index_mismatch
      busy-mismatch

get_work-Hands_example :
    Hands alice at_work lab (get_work alice at_work lab).0 (get_work alice at_work lab).1
get_work-Hands_example = get_work-Hands lab lab-IsSound alice at_work

get_work-Follows_example : Follows genesis handed_out
get_work-Follows_example =
    get_work-Follows lab lab-IsSound lab-IsAnchored lab-short lab-queue alice at_work handed_out
      genesis lab-latest lab-work

-- The generator queues two blocks of the same height; Alice mines the first.
abbrev mined_one : List (ℕ × Call)
mined_one =
    (1000, registers alice (text "10.0.0.7") (text "lab-7") (text "10.0.0.7"))
    ∷ (2000, registers bob (text "10.0.0.8") (text "lab-8") (text "10.0.0.8"))
    ∷ (at_work, generator_ticks)
    ∷ (at_work, generator_sends)
    ∷ (at_work, generator_ticks)
    ∷ (at_work, generator_sends)
    ∷ (at_work, gets_work alice)
    ∷ (at_work, submits alice 1 9 solved)
    ∷ []

run-IsSound_example :
    IsSound toy_sha
      (run toy_sha
        (start_system (new_mining_pool (new_blockchain toy_sha 3 1700000000)))
        mined_one).pool
run-IsSound_example = run-IsSound toy_sha-HexDigest 3 1700000000 mined_one

run-IsTraceable_example :
    IsTraceable toy_sha
      (run toy_sha (start_system (new_mining_pool (new_blockchain toy_sha 3 1700000000))) mined_one)
run-IsTraceable_example = run-IsTraceable toy_sha-HexDigest 3 1700000000 mined_one

run-Grows_example : Grows start.pool.blockchain (run toy_sha start mined_one).pool.blockchain
run-Grows_example = run-Grows toy_sha-HexDigest start mined_one (start-IsSound toy_sha 3 1700000000)

-- Bob is next, with the second block of the queue.
abbrev late : MiningPool
late = (run toy_sha start mined_one).pool

late-IsSound : IsSound toy_sha late
late-IsSound = run-IsSound toy_sha-HexDigest 3 1700000000 mined_one

abbrev bob_record : MinerRecord
bob_record = new_miner bob (text "10.0.0.8") (text "lab-8") (text "10.0.0.8") 2000

late-bob : lookup bob late.miners ≡ some bob_record
unfolding get_work with_miner lookup run step register_miner start_system new_mining_pool report
    set_miner insert text_eq assign_work assign_from get_latest_block new_blockchain set_pending
    submit_work submit_solved settle_submission credit_miner solve new_miner add_block
    is_valid_new_block check_difficulty zero_prefix calculate_hash hash_record format_int decimal
    digits_onto genesis_fields new_work_block clamp_difficulty delete delete_where tick_generator
    send_generated produce_work offer_work append_if_valid
late-bob = refl

late-idle : lookup bob late.pending_work ≡ none
unfolding get_work with_miner lookup run step register_miner start_system new_mining_pool report
    set_miner insert text_eq assign_work assign_from get_latest_block new_blockchain set_pending
    submit_work submit_solved settle_submission credit_miner solve new_miner add_block
    is_valid_new_block check_difficulty zero_prefix calculate_hash hash_record format_int decimal
    digits_onto genesis_fields new_work_block clamp_difficulty delete delete_where tick_generator
    send_generated produce_work offer_work append_if_valid
late-idle = refl

late-queue : late.work_queue ≡ handed_out ∷ []
unfolding get_work with_miner lookup run step register_miner start_system new_mining_pool report
    set_miner insert text_eq assign_work assign_from get_latest_block new_blockchain set_pending
    submit_work submit_solved settle_submission credit_miner solve new_miner add_block
    is_valid_new_block check_difficulty zero_prefix calculate_hash hash_record format_int decimal
    digits_onto genesis_fields new_work_block clamp_difficulty delete delete_where tick_generator
    send_generated produce_work offer_work append_if_valid
late-queue = refl

late-latest : get_latest_block late.blockchain ≡ some (solve alice 9 solved handed_out)
unfolding get_work with_miner lookup run step register_miner start_system new_mining_pool report
    set_miner insert text_eq assign_work assign_from get_latest_block new_blockchain set_pending
    submit_work submit_solved settle_submission credit_miner solve new_miner add_block
    is_valid_new_block check_difficulty zero_prefix calculate_hash hash_record format_int decimal
    digits_onto genesis_fields new_work_block clamp_difficulty delete delete_where tick_generator
    send_generated produce_work offer_work append_if_valid
late-latest = refl

handed_out-old : handed_out.index ≢ add64 handed_out.index 1
handed_out-old = λ h. absurd (omega arith)

get_work_stale_example :
    ((get_work bob at_work late).1 ≡ ok handed_out)
    × ((submit_work toy_sha bob handed_out.index 4 solved 6 (get_work bob at_work late).0).1
        ≡ err block_is_stale)
unfolding solve new_work_block
get_work_stale_example =
    get_work_stale toy_sha-HexDigest late late-IsSound bob 4 solved at_work 6 handed_out
      (solve alice 9 solved handed_out) [] bob_record late-bob late-idle late-queue late-latest
      handed_out-old
