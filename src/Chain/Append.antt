-- ===== src/Chain/Append.antt =====
-- NewBlockchain, AddBlock and ValidateChain against the links of a whole chain.
use red_team_coin.Base.{
  ℕ, ◌^◌, ◌≤◌, ◌<◌, ◌≡◌, refl, ◌↔◌, ◌⊎◌, inl, inr, true, some, List, [], ◌∷◌, ◌++◌, arith, last_or,
  get_last?, Text, I32, I64, subst,
}
use red_team_coin.Outcome.{ok, err}
use red_team_coin.Chain.{
  Block, Blockchain, invalid_block, clamp_difficulty, genesis_fields, new_blockchain, add_block,
  validate_from, validate_chain, get_latest_block,
}
use red_team_coin.Chain.Links.{Link, HexDigest, is_valid_new_block_iff, is_valid_new_block_returns}

-- Each block of the list follows the one before it, the first follows `previous`.
abbrev pub LinkedFrom : (Text → Text) → ℕ → Block → List Block → Type 0
LinkedFrom sha d previous [] = Unit
LinkedFrom sha d previous (b ∷ rest) = Link sha d previous b × LinkedFrom sha d b rest

abbrev pub IsLinked : (Text → Text) → ℕ → List Block → Type 0
IsLinked sha d [] = ⊥
IsLinked sha d (genesis ∷ rest) = (genesis.index ≡ 0) × LinkedFrom sha d genesis rest

pub record IsValidChain (sha : Text → Text) (bc : Blockchain) : Type 0 where
  pub positive : 1 ≤ bc.difficulty
  pub bounded : bc.difficulty ≤ 10
  pub chained : IsLinked sha bc.difficulty bc.blocks

-- The difficulty of a new chain lies between 1 and 10, whatever was asked for, and is what was
-- asked for where that lies there.
pub clamp_difficulty_bounds :
    (d : I32)
    → (1 ≤ clamp_difficulty d)
      × (clamp_difficulty d ≤ 10)
      × (1 ≤ d → d ≤ 10 → clamp_difficulty d ≡ d)
unfolding clamp_difficulty
clamp_difficulty_bounds d = ground arith

pub new_blockchain-IsValidChain :
    (sha : Text → Text) (d : I32) (now : I64) → IsValidChain sha (new_blockchain sha d now)
unfolding new_blockchain genesis_fields
new_blockchain-IsValidChain sha d now = record {
  positive = (clamp_difficulty_bounds d).0;
  bounded = (clamp_difficulty_bounds d).1;
  chained = (refl, tt);
}

module _ (sha : Text → Text) where
  LinkedFrom-append :
      (d : ℕ) (previous b : Block) (xs : List Block)
      → LinkedFrom sha d previous xs
      → Link sha d (last_or previous xs) b
      → LinkedFrom sha d previous (xs ++ b ∷ [])
  LinkedFrom-append d previous b [] h l = (l, tt)
  LinkedFrom-append d previous b (x ∷ xs) h l = (h.0, LinkedFrom-append d x b xs h.1 l)

  IsLinked-append :
      (d : ℕ) (latest b : Block) (xs : List Block)
      → IsLinked sha d xs
      → get_last? xs ≡ some latest
      → Link sha d latest b
      → IsLinked sha d (xs ++ b ∷ [])
  IsLinked-append d latest b [] h e l = absurd h
  IsLinked-append d latest b (g ∷ xs) h e l =
      (h.0, LinkedFrom-append d g b xs h.1 (subst (λ p. Link sha d p b) (cc) l))

  IsLinked-latest :
      (d : ℕ) (xs : List Block) → IsLinked sha d xs → (b : Block) × (get_last? xs ≡ some b)
  IsLinked-latest d [] h = absurd h
  IsLinked-latest d (g ∷ xs) h = (last_or g xs, refl)

  -- A valid chain has a latest block.
  pub get_latest_block-some :
      (bc : Blockchain) → IsValidChain sha bc → (b : Block) × (get_latest_block bc ≡ some b)
  unfolding get_latest_block
  get_latest_block-some bc v = IsLinked-latest bc.difficulty bc.blocks v.chained

abbrev pub extend : Blockchain → Block → Blockchain
extend bc b = record bc { blocks = bc.blocks ++ b ∷ [] }

module _ (sha : Text → Text) (hex : HexDigest sha) where
  -- On a valid chain, AddBlock appends the block exactly when it follows the latest one, and
  -- otherwise reports an invalid block and leaves the chain as it was. It never panics.
  pub add_block_cases :
      (b latest : Block) (bc : Blockchain)
      → IsValidChain sha bc
      → get_latest_block bc ≡ some latest
      → (Link sha bc.difficulty latest b × (add_block sha b bc ≡ (extend bc b, ok tt)))
        ⊎ ((¬ Link sha bc.difficulty latest b) × (add_block sha b bc ≡ (bc, err invalid_block)))
  unfolding add_block get_latest_block
  add_block_cases b latest bc v e =
      let small : bc.difficulty < 2 ^ 31 = omega arith in
      let exact = is_valid_new_block_iff sha bc.difficulty small b latest in
      elim (is_valid_new_block_returns sha bc.difficulty small hex (omega arith) b latest) [
        | inl yes' ↦ inl (exact.0 yes', rw (e, yes', add_block))
        | inr no' ↦ inr ((λ l. cc (exact.1 l)), rw (e, no', add_block))
      ]

  -- AddBlock keeps a valid chain valid.
  pub add_block-IsValidChain :
      (b : Block) (bc : Blockchain) → IsValidChain sha bc → IsValidChain sha (add_block sha b bc).0
  add_block-IsValidChain b bc v =
      let (latest, e) = get_latest_block-some sha bc v in
      elim (add_block_cases b latest bc v e) [
        | inl (l, r) ↦ rw r (record {
          positive = v.positive;
          bounded = v.bounded;
          chained =
              IsLinked-append sha bc.difficulty latest b bc.blocks v.chained
                (unfold get_latest_block in e) l;
        })
        | inr (_, r) ↦ rw r v
      ]

module _ (sha : Text → Text) where
  validate_from_iff :
      (d : ℕ) (previous : Block) (xs : List Block)
      → d < 2 ^ 31
      → (validate_from sha d previous xs ≡ ok true) ↔ LinkedFrom sha d previous xs
  unfolding validate_from
  validate_from_iff d previous [] small = (λ _. tt, λ _. refl)
  validate_from_iff d previous (x ∷ xs) small =
      let here = is_valid_new_block_iff sha d small x previous in
      let later = validate_from_iff d x xs small in
      (λ h. ground (arith, here, later), λ h. ground (arith, here, later))

  -- ValidateChain answers true exactly when every block after the first follows the one before it.
  pub validate_chain_iff :
      (genesis : Block) (rest : List Block) (d : I32)
      → d < 2 ^ 31
      → (validate_chain sha (record { blocks = genesis ∷ rest; difficulty = d }) ≡ ok true)
        ↔ LinkedFrom sha d genesis rest
  unfolding validate_chain
  validate_chain_iff genesis rest d small = validate_from_iff d genesis rest small
