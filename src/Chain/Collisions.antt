-- ===== src/Chain/Collisions.antt =====
-- What the hash of a block does not fix: `calculateHash` joins its fields with nothing between
-- them, and leaves MinedBy out.
use native.Mathlib.Nat.{pow-suc}
use red_team_coin.Base.{
  ℕ, zero, suc, ◌+◌, ◌*◌, ◌/◌, ◌%◌, ◌^◌, ◌≤◌, ◌<◌, ◌≡◌, refl, sym, ap, ◌∙◌, List, [], ◌∷◌, ◌++◌,
  append_assoc, arith, Text, I64, digits_onto, decimal, format_int,
}
use red_team_coin.Chain.{
  Block, Blockchain, hash_record, calculate_hash, is_valid_new_block, validate_from, validate_chain,
}

-- One more round than the number of digits changes nothing.
digits_onto-suc :
    (f n : ℕ) (acc : Text)
    → n < 10 ^ suc f
    → digits_onto (suc f) n acc ≡ digits_onto (suc (suc f)) n acc
unfolding digits_onto
digits_onto-suc zero n acc h = ground arith
digits_onto-suc (suc f) n acc h =
    ground
      (arith, digits_onto-suc f (n / 10) ((48 + n % 10) ∷ acc) (omega (arith, pow-suc 10 (suc f))))

digits_onto-append :
    (f n : ℕ) (acc tail : Text) → digits_onto f n (acc ++ tail) ≡ digits_onto f n acc ++ tail
unfolding digits_onto
digits_onto-append zero n acc tail = refl
digits_onto-append (suc f) n acc tail =
    ground (arith, digits_onto-append f (n / 10) ((48 + n % 10) ∷ acc) tail)

digits_onto-step :
    (f n : ℕ) (acc : Text)
    → 10 ≤ n
    → digits_onto (suc f) n acc ≡ digits_onto f (n / 10) ((48 + n % 10) ∷ acc)
unfolding digits_onto
digits_onto-step f n acc h = ground arith

-- Writing a last digit d after t, t > 0, is writing 10 t + d.
pub decimal-snoc :
    (t d : ℕ) → 0 < t → d < 10 → t < 10 ^ 19 → decimal (10 * t + d) ≡ decimal t ++ (48 + d) ∷ []
unfolding decimal
decimal-snoc t d pos small bound =
    let quotient : (10 * t + d) / 10 ≡ t = omega arith in
    let remainder : (10 * t + d) % 10 ≡ d = omega arith in
    digits_onto-step 19 (10 * t + d) [] (omega arith)
    ∙ rw (quotient, remainder)
        (digits_onto-append 19 t [] ((48 + d) ∷ [])
          ∙ ap (λ s. s ++ (48 + d) ∷ []) (digits_onto-suc 18 t [] bound))

format_int-decimal : (n : ℕ) → n < 2 ^ 63 → format_int n ≡ decimal n
unfolding format_int
format_int-decimal n h = ground arith

-- A digit may move from the head of the data to the end of the timestamp: the hashed text stays.
pub hash_record-shift :
    (index t d : ℕ) (content previous_hash : Text) (nonce : I64)
    → 0 < t
    → d < 10
    → 10 * t + d < 2 ^ 63
    → hash_record index t ((48 + d) ∷ content) previous_hash nonce
      ≡ hash_record index (10 * t + d) content previous_hash nonce
unfolding hash_record
hash_record-shift index t d content previous_hash nonce pos small bound =
    let tail = content ++ (previous_hash ++ format_int nonce) in
    let last = decimal-snoc t d pos small (omega arith) in
    let split = append_assoc (decimal t) ((48 + d) ∷ []) tail in
    ap (◌++◌ (format_int index)) (
      ap (λ s. s ++ ((48 + d) ∷ tail)) (format_int-decimal t (omega arith))
      ∙ sym split
      ∙ ap (λ s. s ++ tail) (sym last)
      ∙ ap (λ s. s ++ tail) (sym (format_int-decimal (10 * t + d) bound)))

-- Two blocks that the checks of the chain cannot tell apart.
record IsDisguise (sha : Text → Text) (b c : Block) : Type 0 where
  same_index : b.index ≡ c.index
  same_link : b.previous_hash ≡ c.previous_hash
  same_hash : b.hash ≡ c.hash
  same_digest : calculate_hash sha b ≡ calculate_hash sha c

abbrev pub chain_of : Block → List Block → ℕ → Blockchain
chain_of genesis rest d = record { blocks = genesis ∷ rest; difficulty = d }

module _ (sha : Text → Text) (d : ℕ) where
  is_valid-disguise_new :
      (b c previous : Block)
      → IsDisguise sha b c
      → is_valid_new_block sha d b previous ≡ is_valid_new_block sha d c previous
  unfolding is_valid_new_block
  is_valid-disguise_new b c previous e =
      simp (e.same_digest) (simp (e.same_index, e.same_link, e.same_hash))

  is_valid-disguise_previous :
      (b c next : Block)
      → IsDisguise sha b c
      → is_valid_new_block sha d next b ≡ is_valid_new_block sha d next c
  unfolding is_valid_new_block
  is_valid-disguise_previous b c next e = simp (e.same_index, e.same_hash)

  validate_from-disguise_previous :
      (b c : Block) (ys : List Block)
      → IsDisguise sha b c
      → validate_from sha d b ys ≡ validate_from sha d c ys
  unfolding validate_from
  validate_from-disguise_previous b c [] e = refl
  validate_from-disguise_previous b c (y ∷ ys) e = rw (is_valid-disguise_previous b c y e)

  validate_from-disguise :
      (previous b c : Block) (xs ys : List Block)
      → IsDisguise sha b c
      → validate_from sha d previous (xs ++ b ∷ ys) ≡ validate_from sha d previous (xs ++ c ∷ ys)
  unfolding validate_from
  validate_from-disguise previous b c [] ys e =
      rw (is_valid-disguise_new b c previous e, validate_from-disguise_previous b c ys e)
  validate_from-disguise previous b c (x ∷ xs) ys e = rw (validate_from-disguise x b c xs ys e)

module _ (sha : Text → Text) (d : ℕ) (genesis b : Block) (xs ys : List Block) where
  -- ValidateChain gives the same verdict whatever name stands in MinedBy of any mined block.
  pub validate_chain-forged_miner :
      (name : Text)
      → validate_chain sha (chain_of genesis (xs ++ record b { mined_by = name } ∷ ys) d)
        ≡ validate_chain sha (chain_of genesis (xs ++ b ∷ ys) d)
  unfolding validate_chain calculate_hash
  validate_chain-forged_miner name =
      validate_from-disguise sha d genesis (record b { mined_by = name }) b xs ys
        (record { same_index = refl; same_link = refl; same_hash = refl; same_digest = refl })

  -- ValidateChain gives the same verdict when the digit that begins the data of any mined block
  -- moves to the end of its timestamp, if the timestamp is positive and stays in the range of int64.
  pub validate_chain-forged_time :
      (t digit : ℕ) (content : Text)
      → 0 < t
      → digit < 10
      → 10 * t + digit < 2 ^ 63
      → validate_chain sha (
          chain_of genesis
            (xs ++ record b { timestamp = t; data_text = (48 + digit) ∷ content } ∷ ys)
            d)
        ≡ validate_chain sha (
            chain_of genesis
              (xs ++ record b { timestamp = 10 * t + digit; data_text = content } ∷ ys)
              d)
  unfolding validate_chain calculate_hash
  validate_chain-forged_time t digit content pos small bound =
      validate_from-disguise sha d genesis
        (record b { timestamp = t; data_text = (48 + digit) ∷ content })
        (record b { timestamp = 10 * t + digit; data_text = content }) xs ys
        (record {
          same_index = refl;
          same_link = refl;
          same_hash = refl;
          same_digest =
              ap sha
                (hash_record-shift b.index t digit content b.previous_hash b.nonce pos small bound);
        })
