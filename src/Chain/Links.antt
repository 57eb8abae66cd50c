-- ===== src/Chain/Links.antt =====
-- What makes one block a valid successor of another, and the check against it.
use red_team_coin.Base.{
  ℕ, zero, suc, ◌^◌, ◌≤◌, ◌<◌, ◌≡◌, refl, ap, ◌∙◌, ◌↔◌, ◌⊎◌, true, false, [], ◌∷◌, ◌++◌,
  append_assoc, append-nil, arith, length, take, replicate, Text, text_eq_iff, add64, I32,
}
use red_team_coin.Outcome.{ok}
use red_team_coin.Chain.{
  Block, zero_prefix, hash_record, calculate_hash, check_difficulty, is_valid_new_block,
}

abbrev zeros : ℕ → Text
zeros d = replicate d b'0'

zeros-snoc : (d : ℕ) → b'0' ∷ zeros d ≡ zeros d ++ b'0' ∷ []
zeros-snoc zero = refl
zeros-snoc (suc d) = ap (◌∷◌ b'0') (zeros-snoc d)

zero_prefix-append : (d : ℕ) (p : Text) → zero_prefix d p ≡ p ++ zeros d
unfolding zero_prefix
zero_prefix-append zero p = rw append-nil
zero_prefix-append (suc d) p =
    zero_prefix-append d (p ++ b'0' ∷ []) ∙ append_assoc p (b'0' ∷ []) (zeros d)

-- The loop writes as many zeros as the difficulty says.
pub zero_prefix-eq-replicate : (d : ℕ) → zero_prefix d [] ≡ replicate d b'0'
zero_prefix-eq-replicate d = zero_prefix-append d []

abbrev pub HexDigest : (Text → Text) → Type 0
HexDigest sha = (r : Text) → length (sha r) ≡ 64

abbrev pub MeetsDifficulty : ℕ → Text → Type 0
MeetsDifficulty d hash = (d ≤ length hash) × (take d hash ≡ replicate d b'0')

pub record Link (sha : Text → Text) (d : ℕ) (previous next : Block) : Type 0 where
  pub index_next : next.index ≡ add64 previous.index 1
  pub linked : next.previous_hash ≡ previous.hash
  pub hashed : next.hash ≡ calculate_hash sha next
  pub worked : MeetsDifficulty d next.hash

module _ (d : I32) (small : d < 2 ^ 31) where
  check_difficulty_iff :
      (hash : Text) → (check_difficulty d hash ≡ ok true) ↔ MeetsDifficulty d hash
  unfolding check_difficulty
  check_difficulty_iff hash =
      let same = text_eq_iff (take d hash) (zero_prefix d []) in
      let prefix = zero_prefix-eq-replicate d in
      (λ h. ground (arith, prefix, same), λ m. ground (arith, prefix, same))

  check_difficulty_returns :
      (hash : Text)
      → d ≤ length hash
      → (check_difficulty d hash ≡ ok true) ⊎ (check_difficulty d hash ≡ ok false)
  unfolding check_difficulty
  check_difficulty_returns hash long = ground arith

module _ (sha : Text → Text) (d : I32) (small : d < 2 ^ 31) where
  -- Below a difficulty of 2 ^ 31, the check passes exactly when the new block follows the previous
  -- one: next index, previous hash, hash of its own contents, and leading zeros.
  pub is_valid_new_block_iff :
      (next previous : Block)
      → (is_valid_new_block sha d next previous ≡ ok true) ↔ Link sha d previous next
  unfolding is_valid_new_block
  is_valid_new_block_iff next previous =
      let back = text_eq_iff previous.hash next.previous_hash in
      let own = text_eq_iff (calculate_hash sha next) next.hash in
      let work = check_difficulty_iff d small next.hash in
      (λ h. ground (arith, back, own, work), λ l. ground (arith, back, own, work))

  -- With a digest of 64 characters and a difficulty of 64 at most, the check never panics: the
  -- hash that it slices has been found equal to a digest.
  pub is_valid_new_block_returns :
      HexDigest sha
      → d ≤ 64
      → (next previous : Block)
      → (is_valid_new_block sha d next previous ≡ ok true)
        ⊎ (is_valid_new_block sha d next previous ≡ ok false)
  unfolding is_valid_new_block calculate_hash
  is_valid_new_block_returns hex bound next previous =
      let r = hash_record next.index next.timestamp next.data_text next.previous_hash next.nonce in
      ground
        (arith, hex r, text_eq_iff (sha r) next.hash, check_difficulty_returns d small next.hash)
