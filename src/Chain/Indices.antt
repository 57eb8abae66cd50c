-- ===== src/Chain/Indices.antt =====
-- Where a block stands in a valid chain, and what appending leaves alone.
use red_team_coin.Base.{
  ℕ, zero, suc, ◌+◌, ◌%◌, ◌^◌, ◌<◌, ◌≡◌, refl, ◌∙◌, some, List, [], ◌∷◌, ◌++◌, arith, length,
  get_elem?, last_or, get_last?, Text,
}
use red_team_coin.Chain.{Block, Blockchain, get_latest_block, get_block_count}
use red_team_coin.Chain.Append.{LinkedFrom, IsLinked, IsValidChain}

module _ {ℓ} {A : Type ℓ} where
  pub get_elem?-append :
      (xs ys : List A) (i : ℕ) {a : A} → get_elem? xs i ≡ some a → get_elem? (xs ++ ys) i ≡ some a
  get_elem?-append [] ys i h = cc
  get_elem?-append (x ∷ xs) ys zero h = h
  get_elem?-append (x ∷ xs) ys (suc i) h = get_elem?-append xs ys i h

  get_elem?-last_or : (x : A) (xs : List A) → get_elem? (x ∷ xs) (length xs) ≡ some (last_or x xs)
  get_elem?-last_or x [] = refl
  get_elem?-last_or x (y ∷ xs) = get_elem?-last_or y xs

  pub get_elem?-lt : (xs : List A) (i : ℕ) {a : A} → get_elem? xs i ≡ some a → i < length xs
  get_elem?-lt [] i h = cc
  get_elem?-lt (x ∷ xs) zero h = omega arith
  get_elem?-lt (x ∷ xs) (suc i) h = omega (arith, get_elem?-lt xs i h)

  pub get_last?-elem :
      (xs : List A) {a : A}
      → get_last? xs ≡ some a
      → (i : ℕ) × (length xs ≡ suc i) × (get_elem? xs i ≡ some a)
  get_last?-elem [] h = cc
  get_last?-elem (x ∷ xs) h = (length xs, refl, get_elem?-last_or x xs ∙ h)

module _ (sha : Text → Text) where
  LinkedFrom-index :
      (d k : ℕ) (previous : Block) (xs : List Block) (i : ℕ) {b : Block}
      → previous.index ≡ k % 2 ^ 64
      → LinkedFrom sha d previous xs
      → get_elem? xs i ≡ some b
      → b.index ≡ (k + 1 + i) % 2 ^ 64
  LinkedFrom-index d k previous [] i e h at_i = cc
  LinkedFrom-index d k previous (x ∷ xs) zero e h at_i = ground (arith, h.0.index_next)
  LinkedFrom-index d k previous (x ∷ xs) (suc i) e h at_i =
      omega (arith, LinkedFrom-index d (k + 1) x xs i (omega (arith, h.0.index_next)) h.1 at_i)

  IsLinked-index :
      (d : ℕ) (xs : List Block) (i : ℕ) {b : Block}
      → IsLinked sha d xs
      → get_elem? xs i ≡ some b
      → b.index ≡ i % 2 ^ 64
  IsLinked-index d [] i h at_i = cc
  IsLinked-index d (g ∷ xs) zero h at_i = ground (arith, h.0)
  IsLinked-index d (g ∷ xs) (suc i) h at_i =
      omega (arith, LinkedFrom-index d 0 g xs i (omega (arith, h.0)) h.1 at_i)

  -- In a valid chain the block at position i has index i, up to the wrap of int64.
  pub block-index :
      (bc : Blockchain) (i : ℕ) {b : Block}
      → IsValidChain sha bc
      → get_elem? bc.blocks i ≡ some b
      → b.index ≡ i % 2 ^ 64
  block-index bc i v at_i = IsLinked-index bc.difficulty bc.blocks i v.chained at_i

pub latest-position :
    (bc : Blockchain) {b : Block}
    → get_latest_block bc ≡ some b
    → (i : ℕ) × (get_block_count bc ≡ suc i) × (get_elem? bc.blocks i ≡ some b)
unfolding get_latest_block get_block_count
latest-position bc e = get_last?-elem bc.blocks e
