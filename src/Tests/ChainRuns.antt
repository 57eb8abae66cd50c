-- ===== src/Tests/ChainRuns.antt =====
-- The theorems of the chain and of the event log on small inputs.
use red_team_coin.Base.{
  ◌+◌, ◌*◌, ◌≡◌, ◌↔◌, ◌⊎◌, refl, List, [], ◌∷◌, ◌++◌, map, arith, some, text, get_elem?, true,
  text_eq, format_int, decimal, digits_onto,
}
use red_team_coin.Outcome.{ok, err}
use red_team_coin.Chain.{
  Block, Blockchain, invalid_block, clamp_difficulty, new_blockchain, genesis_fields,
  calculate_hash, is_valid_new_block, add_block, hash_record, check_difficulty, zero_prefix,
  append_if_valid, validate_chain, get_latest_block,
}
use red_team_coin.Chain.Links.{Link, is_valid_new_block_iff}
use red_team_coin.Chain.Append.{
  IsValidChain, LinkedFrom, extend, new_blockchain-IsValidChain, add_block_cases,
  add_block-IsValidChain, validate_chain_iff,
}
use red_team_coin.Chain.Collisions.{chain_of, validate_chain-forged_time}
use red_team_coin.EventLog.{new_pool_logger, number}
use red_team_coin.EventLog.Latest.{latest, Report, entry_of, log_all, log_all-latest}
use red_team_coin.Tests.Sample.{toy_sha, toy_sha-HexDigest, first_chain, alice}

abbrev genesis : Block
genesis = record (genesis_fields 1700000000) {
  hash = calculate_hash toy_sha (genesis_fields 1700000000);
}

abbrev unsolved : Block
unsolved = record {
  index = 1;
  timestamp = 1700000060;
  data_text = text "7 data";
  previous_hash = genesis.hash;
  hash = [];
  nonce = 5;
  mined_by = alice;
}

abbrev second_block : Block
second_block = record unsolved { hash = calculate_hash toy_sha unsolved }

accepts_second : is_valid_new_block toy_sha 3 second_block genesis ≡ ok true
unfolding is_valid_new_block calculate_hash genesis_fields text_eq hash_record format_int decimal
    digits_onto check_difficulty zero_prefix
accepts_second = refl

second_block-Link : Link toy_sha 3 genesis second_block
second_block-Link =
    (is_valid_new_block_iff toy_sha 3 (omega arith) second_block genesis).0 accepts_second

first_chain-IsValidChain : IsValidChain toy_sha first_chain
first_chain-IsValidChain = new_blockchain-IsValidChain toy_sha 3 1700000000

first_chain-latest : get_latest_block first_chain ≡ some genesis
unfolding new_blockchain get_latest_block
first_chain-latest = refl

add_block_cases_example :
    (Link toy_sha first_chain.difficulty genesis second_block
      × (add_block toy_sha second_block first_chain ≡ (extend first_chain second_block, ok tt)))
    ⊎ ((¬ Link toy_sha first_chain.difficulty genesis second_block)
        × (add_block toy_sha second_block first_chain ≡ (first_chain, err invalid_block)))
add_block_cases_example =
    add_block_cases toy_sha toy_sha-HexDigest second_block genesis first_chain
      first_chain-IsValidChain first_chain-latest

validate_chain_iff_example :
    (validate_chain toy_sha (record { blocks = genesis ∷ second_block ∷ []; difficulty = 3 })
      ≡ ok true)
    ↔ LinkedFrom toy_sha 3 genesis (second_block ∷ [])
validate_chain_iff_example = validate_chain_iff toy_sha genesis (second_block ∷ []) 3 (omega arith)

abbrev longer_chain : Blockchain
longer_chain = (add_block toy_sha second_block first_chain).0

longer_chain-IsValidChain : IsValidChain toy_sha longer_chain
longer_chain-IsValidChain =
    add_block-IsValidChain toy_sha toy_sha-HexDigest second_block first_chain
      first_chain-IsValidChain

longer_chain-block : get_elem? longer_chain.blocks 1 ≡ some second_block
unfolding new_blockchain add_block is_valid_new_block calculate_hash genesis_fields text_eq
    hash_record format_int decimal digits_onto check_difficulty zero_prefix clamp_difficulty
    append_if_valid
longer_chain-block = refl

-- "7 data" at time 170 against " data" at time 1707.
validate_chain-forged_time_example :
    validate_chain toy_sha (
      chain_of genesis
        ([] ++ record second_block { timestamp = 170; data_text = (48 + 7) ∷ text " data" } ∷ [])
        3)
    ≡ validate_chain toy_sha (
        chain_of genesis
          ([] ++ record second_block { timestamp = 10 * 170 + 7; data_text = text " data" } ∷ [])
          3)
validate_chain-forged_time_example =
    validate_chain-forged_time toy_sha 3 genesis second_block [] [] 170 7 (text " data")
      (omega arith) (omega arith) (omega arith)

abbrev two_reports : List Report
two_reports =
    (text "pool_started", text "Pool", [], [], 1)
    ∷ (text "block_mined", text "Block", alice, (text "reward", number 50) ∷ [], 2)
    ∷ []

log_all-latest_example :
    (log_all two_reports (new_pool_logger (text "pool.json") 30 0)).events
    ≡ latest 1000 (map entry_of two_reports)
log_all-latest_example = log_all-latest (text "pool.json") 30 0 two_reports
