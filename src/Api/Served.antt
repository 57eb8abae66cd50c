-- ===== src/Api/Served.antt =====
-- What the reading requests show of a server that has run.
use red_team_coin.Base.{
  ℕ, ◌^◌, ◌≤◌, ◌<◌, ◌≡◌, ◌≢◌, ◌⊎◌, inl, inr, refl, true, false, Option, none, some, List, [], ◌∷◌,
  ◌++◌, arith, Bool-cases, Option-cases, length, get_elem?, Text, text, text_eq, text_eq_iff,
  text_eq_refl, ltb, ltb→lt, is_neg64, I32, I64,
}
use red_team_coin.Outcome.{Outcome, ok, ◌>>=◌}
use red_team_coin.Chain.{Block, ChainError, get_blockchain, validate_chain}
use red_team_coin.Chain.Append.{IsLinked, validate_chain_iff}
use red_team_coin.Chain.Indices.{block-index}
use red_team_coin.Pool.{MinerRecord, MiningPool}
use red_team_coin.Pool.Invariant.{IsSound}
use red_team_coin.Api.Reads.{
  Page, service_unavailable, refused, block_json, valid_json, ReadRoute, validate, block_at, Reader,
  handle_block, handle_validate, read_handler, read_request,
}

-- There is an element at each place before the end.
get_elem?-some {ℓ} :
    {A : Type ℓ} (xs : List A) (i : ℕ) → i < length xs → (a : A) × (get_elem? xs i ≡ some a)
get_elem?-some [] i h = absurd (omega arith)
get_elem?-some (x ∷ xs) ℕ.zero h = (x, refl)
get_elem?-some (x ∷ xs) (ℕ.suc i) h = get_elem?-some xs i (omega arith)

linked-validates :
    (sha : Text → Text) (blocks : List Block) (d : I32)
    → d ≤ 10
    → IsLinked sha d blocks
    → validate_chain sha (record { blocks = blocks; difficulty = d }) ≡ ok true
linked-validates sha [] d small linked = absurd linked
linked-validates sha (genesis ∷ rest) d small linked =
    (validate_chain_iff sha genesis rest d (omega arith)).1 linked.1

IsSound-handle_validate :
    (sha : Text → Text) (pool : MiningPool)
    → IsSound sha pool
    → handle_validate sha pool ≡ ok (valid_json true)
unfolding handle_validate
IsSound-handle_validate sha pool sound =
    let bc = pool.blockchain in
    let valid = sound.chain_valid in
    rw (linked-validates sha bc.blocks bc.difficulty valid.bounded valid.chained, ◌>>=◌) refl

-- The reply to a request for a block, by the number in its path.
pub data BlockReply (blocks : List Block) (reply : Outcome ChainError Page)
    : Option I64 → Type 0 where
  no_number : reply ≡ ok (refused 400 (text "Invalid block index")) → BlockReply blocks reply none
  block_found :
      (i : I64) (block : Block)
      → get_elem? blocks i ≡ some block
      → block.index ≡ i
      → reply ≡ ok (block_json block)
      → BlockReply blocks reply (some i)
  out_of_range :
      (i : I64)
      → length blocks ≤ i
      → reply ≡ ok (refused 404 (text "Block not found"))
      → BlockReply blocks reply (some i)

handle_block-BlockReply :
    (sha : Text → Text) (scan : Text → Option I64) (path : Text) (pool : MiningPool)
    → IsSound sha pool
    → length pool.blockchain.blocks < 2 ^ 63
    → BlockReply pool.blockchain.blocks (handle_block scan path pool) (scan path)
unfolding handle_block get_blockchain
handle_block-BlockReply sha scan path pool sound small = elim (Option-cases (scan path)) [
  | inl e ↦ rw (e, handle_block) (no_number refl)
  | inr (i, e) ↦
      let blocks = pool.blockchain.blocks in
      rw (e, handle_block)
        (elim (Bool-cases (ltb i (length blocks))) [
          | inr over ↦ out_of_range i (ground arith) (ground (arith, over))
          | inl inside ↦
              let below = ltb→lt i (length blocks) inside in
              let (block, at_i) = get_elem?-some blocks i below in
              let not_negative : is_neg64 i ≡ false = ground arith in
              block_found i block at_i
                (omega (arith, block-index sha pool.blockchain i sound.chain_valid at_i))
                (rw (not_negative, inside, at_i) refl)
        ])
]

module _ (server : Reader) (now : ℕ) (visits : List MinerRecord) (pool : MiningPool) where
  -- On a sound pool, whose chain has fewer than 2 ^ 63 blocks, a request with the token for the
  -- validation answers true, and one for a block answers with the block that has the number of the
  -- path as its index, with 404 exactly from the chain's length on (a negative number included), and
  -- with 400 if the path has no number. Without the token every reading request gets the error page.
  pub read_request_cases :
      IsSound server.sha pool
      → length pool.blockchain.blocks < 2 ^ 63
      → (authorization path : Text) (route : ReadRoute)
      → ((authorization ≢ text "Bearer " ++ server.auth_token)
          × (read_request server now visits route authorization pool ≡ ok service_unavailable))
        ⊎ ((authorization ≡ text "Bearer " ++ server.auth_token)
            × (read_request server now visits validate authorization pool ≡ ok (valid_json true))
            × BlockReply pool.blockchain.blocks
                (read_request server now visits (block_at path) authorization pool)
                (server.scan path))
  unfolding read_request read_handler
  read_request_cases sound small authorization path route =
      let token = text "Bearer " ++ server.auth_token in
      elim (Bool-cases (text_eq authorization token)) [
        | inr other ↦ inl (ground (arith, other, text_eq_refl token), rw other refl)
        | inl same ↦ inr (
          (text_eq_iff authorization token).0 same,
          rw same (IsSound-handle_validate server.sha pool sound),
          rw same (handle_block-BlockReply server.sha server.scan path pool sound small),
        )
      ]
