-- ===== src/Pool/Freshness.antt =====
-- Work that GetWork hands out follows the head of the chain, unless it comes from the queue.
use red_team_coin.Base.{
  ℕ, ◌^◌, ◌<◌, ◌≡◌, refl, ap, ◌∙◌, subst, true, some, [], arith, get_elem?, lt64, add64, Text,
}
use red_team_coin.Base.Dict.{AllValues-lookup}
use red_team_coin.Outcome.{ok}
use red_team_coin.Chain.{Block, Blockchain, get_latest_block, get_block_count}
use red_team_coin.Chain.Append.{IsValidChain}
use red_team_coin.Chain.Indices.{block-index, latest-position, get_elem?-lt}
use red_team_coin.Pool.{PendingWork, MiningPool}
use red_team_coin.Pool.Work.{new_work_block, get_work}
use red_team_coin.Pool.Invariant.{IsSound}
use red_team_coin.Pool.Assignment.{unregistered, reused, queued, generated, get_work_cases}
use red_team_coin.Pool.Anchors.{Anchored, IsAnchored}

-- `b` has the next index and names the hash of the latest block.
pub record Follows (latest b : Block) : Type 0 where
  pub next_index : b.index ≡ add64 latest.index 1
  pub names_latest : b.previous_hash ≡ latest.hash

-- A signed comparison of small numbers is that of the numbers.
lt64-small : (a b : ℕ) → a < 2 ^ 63 → lt64 a b ≡ true → a < b
lt64-small a b h t = ground arith

Anchored-Follows :
    {sha : Text → Text} (bc : Blockchain) (b latest : Block)
    → IsValidChain sha bc
    → get_block_count bc < 2 ^ 63
    → get_latest_block bc ≡ some latest
    → Anchored bc b
    → lt64 latest.index b.index ≡ true
    → Follows latest b
unfolding get_block_count
Anchored-Follows {sha} bc b latest v small top a ahead =
    let (j, count, at_j) = latest-position bc top in
    let base_index = block-index sha bc a.position v a.stands in
    let latest_index = block-index sha bc j v at_j in
    let inside = get_elem?-lt bc.blocks a.position a.stands in
    let less = lt64-small latest.index b.index (omega (arith, count, latest_index)) ahead in
    let same : a.position ≡ j =
      omega (arith, count, base_index, latest_index, inside, less, a.on_top) in
    let base_latest : a.base ≡ latest = cc (a.stands, at_j, ap (get_elem? bc.blocks) same) in
    record {
      next_index = a.on_top ∙ ap (λ (c : Block). add64 c.index 1) base_latest;
      names_latest = a.names_base ∙ ap (λ (c : Block). c.hash) base_latest;
    }

module _ {sha : Text → Text} (pool : MiningPool) (v : IsSound sha pool) (a : IsAnchored pool)
    (small : get_block_count pool.blockchain < 2 ^ 63) (empty : pool.work_queue ≡ []) (id : Text)
    (now : ℕ) (b latest : Block) (top : get_latest_block pool.blockchain ≡ some latest) where
  -- With an empty queue, and fewer than 2 ^ 63 blocks, the work that GetWork hands out has the next
  -- index and names the hash of the latest block, whether it was pending or is new.
  pub get_work-Follows : (get_work id now pool).1 ≡ ok b → Follows latest b
  unfolding new_work_block
  get_work-Follows h = elim (get_work_cases pool v id now) [
    | unregistered _ r ↦ absurd (cc (rw r at h))
    | reused m w latest' _ busy top' _ ahead r ↦
        let same : latest' ≡ latest = cc in
        let work_b : w.block ≡ b = cc (rw r at h) in
        let anchored =
          AllValues-lookup (λ (u : PendingWork). Anchored pool.blockchain u.block) id
            pool.pending_work a.pending_anchored busy in
        subst (Follows latest) work_b (
          Anchored-Follows pool.blockchain w.block latest v.chain_valid small top anchored
            (subst (λ (c : Block). lt64 c.index w.block.index ≡ true) same ahead))
    | queued _ _ _ _ _ q _ _ ↦ absurd (cc (q, empty))
    | generated m latest' _ _ top' _ _ r ↦
        let same : latest' ≡ latest = cc in
        let new_b : new_work_block latest now ≡ b = cc (rw r at h) in
        subst (Follows latest) new_b (record { next_index = refl; names_latest = refl })
  ]
