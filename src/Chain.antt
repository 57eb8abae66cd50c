-- ===== src/Chain.antt =====
-- server/blockchain.go: blocks, their hash, and the chain with its validation.
-- `sha` stands for the hexadecimal text of crypto/sha256's digest; the clock is an argument.
-- An int64 field is a number below 2 ^ 64 with the same bits (Base/Word.antt).
pub mod Links
pub mod Append
pub mod Indices
pub mod Collisions
use red_team_coin.Base.{
  ℕ, zero, suc, ◌≡◌, Bool, true, false, not, ◌||◌, Option, none, some, List, [], ◌∷◌, ◌++◌, ltb,
  leb, ◌==◌, if◌then◌else◌, length, take, get_last?, Text, text, text_eq, I32, I64, add64, lt32,
  is_neg32, format_int,
}
use red_team_coin.Outcome.{Outcome, ok, err, panic, ◌>>=◌}

pub record Block : Type 0 where
  pub index : I64
  pub timestamp : I64
  pub data_text : Text
  pub previous_hash : Text
  pub hash : Text
  pub nonce : I64
  pub mined_by : Text

pub record Blockchain : Type 0 where
  pub blocks : List Block
  pub difficulty : I32

pub data ChainError : Type 0 where
  invalid_block : ChainError

-- The clamp at the head of NewBlockchain.
unfoldable pub clamp_difficulty : I32 → I32
clamp_difficulty d = if lt32 d 1 then 1 else if lt32 10 d then 10 else d

-- prefix := ""; for i := 0; i < difficulty; i++ { prefix += "0" }
unfoldable pub zero_prefix : ℕ → Text → Text
zero_prefix zero prefix = prefix
zero_prefix (suc rounds) prefix = zero_prefix rounds (prefix ++ b'0' ∷ [])

-- The text that is hashed.
unfoldable pub hash_record : I64 → I64 → Text → Text → I64 → Text
hash_record index timestamp content previous_hash nonce =
    format_int index ++ (format_int timestamp ++ (content ++ (previous_hash ++ format_int nonce)))

-- The block before its hash is set.
unfoldable pub genesis_fields : I64 → Block
genesis_fields now = record {
  index = 0;
  timestamp = now;
  data_text = text "Genesis Block";
  previous_hash = text "0";
  hash = [];
  nonce = 0;
  mined_by = [];
}

-- The last test of isValidNewBlock. Its failing branch logs newBlock.Hash[:difficulty], which
-- panics where the hash is shorter; a slice to a negative bound panics too.
unfoldable pub check_difficulty : I32 → Text → Outcome ChainError Bool
check_difficulty d hash =
    if is_neg32 d
    then panic
    else if ltb (length hash) d
    then panic
    else if text_eq (take d hash) (zero_prefix d [])
    then ok true
    else ok false

module _ (sha : Text → Text) where
  unfoldable pub calculate_hash : Block → Text
  calculate_hash b = sha (hash_record b.index b.timestamp b.data_text b.previous_hash b.nonce)

  unfoldable pub new_blockchain : I32 → I64 → Blockchain
  new_blockchain difficulty now =
      let genesis = genesis_fields now in
      record {
        blocks = record genesis { hash = calculate_hash genesis } ∷ [];
        difficulty = clamp_difficulty difficulty;
      }

  unfoldable pub is_valid_new_block : I32 → Block → Block → Outcome ChainError Bool
  is_valid_new_block d new_block previous_block =
      if not (add64 previous_block.index 1 == new_block.index)
      then ok false
      else if not (text_eq previous_block.hash new_block.previous_hash)
      then ok false
      else if not (text_eq (calculate_hash new_block) new_block.hash)
      then ok false
      else check_difficulty d new_block.hash

  -- What AddBlock does with the verdict.
  unfoldable pub append_if_valid :
      Blockchain → Block → Outcome ChainError Bool → Blockchain × Outcome ChainError (Unit {0})
  append_if_valid bc block (ok true) = (record bc { blocks = bc.blocks ++ block ∷ [] }, ok tt)
  append_if_valid bc block (ok false) = (bc, err invalid_block)
  append_if_valid bc block (err e) = (bc, err e)
  append_if_valid bc block panic = (bc, panic)

  -- bc.Blocks[len(bc.Blocks)-1] panics on a chain with no block.
  unfoldable pub add_block : Block → Blockchain → Blockchain × Outcome ChainError (Unit {0})
  unfolding append_if_valid
  add_block block bc = elim (get_last? bc.blocks) [
    | none ↦ (bc, panic)
    | some latest ↦ append_if_valid bc block (is_valid_new_block bc.difficulty block latest)
  ]

  -- The loop of ValidateChain, from the block after `previous_block`.
  unfoldable pub validate_from : I32 → Block → List Block → Outcome ChainError Bool
  validate_from d previous_block [] = ok true
  validate_from d previous_block (current ∷ rest) =
      let later = validate_from d current rest in
      is_valid_new_block d current previous_block >>= λ valid. if valid then later else ok false

  validate_blocks : I32 → List Block → Outcome ChainError Bool
  validate_blocks d [] = ok true
  validate_blocks d (first ∷ rest) = validate_from d first rest

  unfoldable pub validate_chain : Blockchain → Outcome ChainError Bool
  unfolding validate_blocks
  validate_chain bc = validate_blocks bc.difficulty bc.blocks

unfoldable pub get_latest_block : Blockchain → Option Block
get_latest_block bc = get_last? bc.blocks

unfoldable pub get_blockchain : Blockchain → List Block
get_blockchain bc = bc.blocks

unfoldable pub get_block_count : Blockchain → ℕ
get_block_count bc = length bc.blocks
