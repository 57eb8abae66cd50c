-- ===== src/Pool/Submission.antt =====
-- SubmitWork, branch by branch, and what an accepted or a rejected submission changes.
use red_team_coin.Base.{
  ℕ, ◌≡◌, ◌≢◌, sym, ap, ◌∙◌, inl, inr, true, false, none, some, ◌==◌, ==_iff, add64, Text, I64,
  Option-cases, Bool-cases,
}
use red_team_coin.Base.Dict.{lookup, insert, delete}
use red_team_coin.Outcome.{Outcome, ok, err}
use red_team_coin.Chain.{Block, Blockchain, ChainError, invalid_block, get_latest_block, add_block}
use red_team_coin.Chain.Links.{Link, HexDigest}
use red_team_coin.Chain.Append.{extend, get_latest_block-some, add_block_cases}
use red_team_coin.Pool.{
  MinerRecord, PendingWork, MiningPool, miner_not_registered, no_pending_work, block_index_mismatch,
  block_is_stale, rejected_by_chain, with_miner,
}
use red_team_coin.Pool.Work.{credit_miner, settle_submission, solve, submit_solved, submit_work}
use red_team_coin.Pool.Invariant.{IsSound}

-- The pool once the solution has been written into the pending block of the miner.
abbrev pub with_solution : Text → PendingWork → Block → MiningPool → MiningPool
with_solution id work block pool = record pool {
  pending_work = insert id (record work { block = block }) pool.pending_work;
}

-- … and once that work has been dropped again.
abbrev pub without_work : Text → PendingWork → Block → MiningPool → MiningPool
without_work id work block pool = record pool {
  pending_work = delete id (insert id (record work { block = block }) pool.pending_work);
}

module _ (sha : Text → Text) (id : Text) (block_index nonce : I64) (hash : Text) (now : ℕ)
    (pool : MiningPool) where
  -- The branches of SubmitWork, each with its condition and its result.
  pub data Submission : Type 0 where
    unregistered :
        lookup id pool.miners ≡ none
        → submit_work sha id block_index nonce hash now pool ≡ (pool, err miner_not_registered)
        → Submission
    idle :
        (m : MinerRecord)
        → lookup id pool.miners ≡ some m
        → lookup id pool.pending_work ≡ none
        → submit_work sha id block_index nonce hash now pool ≡ (pool, err no_pending_work)
        → Submission
    mismatched :
        (m : MinerRecord) (work : PendingWork)
        → lookup id pool.miners ≡ some m
        → lookup id pool.pending_work ≡ some work
        → work.block.index ≢ block_index
        → submit_work sha id block_index nonce hash now pool ≡ (pool, err block_index_mismatch)
        → Submission
    stale :
        (m : MinerRecord) (work : PendingWork) (latest : Block)
        → lookup id pool.miners ≡ some m
        → lookup id pool.pending_work ≡ some work
        → work.block.index ≡ block_index
        → get_latest_block pool.blockchain ≡ some latest
        → block_index ≢ add64 latest.index 1
        → submit_work sha id block_index nonce hash now pool
          ≡ (without_work id work (solve id nonce hash work.block) pool, err block_is_stale)
        → Submission
    refused :
        (m : MinerRecord) (work : PendingWork) (latest : Block)
        → lookup id pool.miners ≡ some m
        → lookup id pool.pending_work ≡ some work
        → work.block.index ≡ block_index
        → get_latest_block pool.blockchain ≡ some latest
        → block_index ≡ add64 latest.index 1
        → ¬ Link sha pool.blockchain.difficulty latest (solve id nonce hash work.block)
        → submit_work sha id block_index nonce hash now pool ≡ (
          without_work id work (solve id nonce hash work.block) pool,
          err (rejected_by_chain invalid_block),
        )
        → Submission
    accepted :
        (m : MinerRecord) (work : PendingWork) (latest : Block)
        → lookup id pool.miners ≡ some m
        → lookup id pool.pending_work ≡ some work
        → work.block.index ≡ block_index
        → get_latest_block pool.blockchain ≡ some latest
        → Link sha pool.blockchain.difficulty latest (solve id nonce hash work.block)
        → submit_work sha id block_index nonce hash now pool ≡ (
          credit_miner id m
              (solve id nonce hash work.block)
              now
              (record (with_solution id work (solve id nonce hash work.block) pool) {
                blockchain = extend pool.blockchain (solve id nonce hash work.block);
              }),
          ok pool.block_reward,
        )
        → Submission

module _ (sha : Text → Text) (id : Text) (block_index nonce : I64) (hash : Text) (now : ℕ)
    (pool : MiningPool) (m : MinerRecord) (work : PendingWork) (latest : Block)
    (found : lookup id pool.miners ≡ some m) (busy : lookup id pool.pending_work ≡ some work)
    (same : work.block.index ≡ block_index)
    (top : get_latest_block pool.blockchain ≡ some latest) where
  reaches_chain :
      submit_work sha id block_index nonce hash now pool
      ≡ submit_solved sha id m
          (solve id nonce hash work.block)
          now
          (with_solution id work (solve id nonce hash work.block) pool)
  unfolding submit_work with_miner
  reaches_chain = rw (found, with_miner, busy, (==_iff work.block.index block_index).1 same)

  submit_stale :
      (block_index == add64 latest.index 1) ≡ false
      → submit_work sha id block_index nonce hash now pool
        ≡ (without_work id work (solve id nonce hash work.block) pool, err block_is_stale)
  unfolding submit_solved solve
  submit_stale other =
      let other' : (work.block.index == add64 latest.index 1) ≡ false = rw same other in
      reaches_chain ∙ rw (top, submit_solved, other')

  submit_settled :
      (answer : Blockchain × Outcome ChainError (Unit {0}))
      → block_index ≡ add64 latest.index 1
      → add_block sha (solve id nonce hash work.block) pool.blockchain ≡ answer
      → submit_work sha id block_index nonce hash now pool
        ≡ settle_submission id m
            (solve id nonce hash work.block)
            now
            (with_solution id work (solve id nonce hash work.block) pool)
            answer
  unfolding submit_solved
  submit_settled answer next r =
      let b = solve id nonce hash work.block in
      let next' : (b.index == add64 latest.index 1) ≡ true =
        unfold solve in (==_iff work.block.index _).1 (same ∙ next) in
      reaches_chain
      ∙ rw (top, submit_solved, next')
          (ap (settle_submission id m b now (with_solution id work b pool)) r)

module _ {sha : Text → Text} (hex : HexDigest sha) (pool : MiningPool) (v : IsSound sha pool)
    (id : Text) (block_index nonce : I64) (hash : Text) (now : ℕ) where
  busy_cases :
      (m : MinerRecord) (work : PendingWork) (latest : Block)
      → lookup id pool.miners ≡ some m
      → lookup id pool.pending_work ≡ some work
      → work.block.index ≡ block_index
      → get_latest_block pool.blockchain ≡ some latest
      → Submission sha id block_index nonce hash now pool
  unfolding settle_submission
  busy_cases m work latest found busy same e =
      let b = solve id nonce hash work.block in
      let settled =
        submit_settled sha id block_index nonce hash now pool m work latest found busy same e in
      elim (add_block_cases sha hex b latest pool.blockchain v.chain_valid e) [
        | inl (l, r) ↦
            accepted m work latest found busy same e l
              (settled _ (sym same ∙ unfold solve in l.index_next) r)
        | inr (l, r) ↦ elim (Bool-cases (block_index == add64 latest.index 1)) [
          | inl next ↦
              let next' = (==_iff block_index _).0 next in
              refused m work latest found busy same e next' l (settled _ next' r)
          | inr other ↦
              stale m work latest found busy same e (λ q. cc ((==_iff block_index _).1 q))
                (submit_stale sha id block_index nonce hash now pool m work latest found busy same e
                  other)
        ]
      ]

  -- In a sound pool a submission takes one of the branches of `Submission`, each with its condition
  -- and its result: it is refused with the named error, or, if the solved block follows the latest
  -- one, it extends the chain, credits the miner and pays the reward.
  pub submit_work_cases : Submission sha id block_index nonce hash now pool
  unfolding submit_work with_miner
  submit_work_cases = elim (Option-cases (lookup id pool.miners)) [
    | inl e ↦ unregistered e (rw (e, with_miner))
    | inr (m, e) ↦ elim (Option-cases (lookup id pool.pending_work)) [
      | inl none' ↦ idle m e none' (rw (e, with_miner, none'))
      | inr (work, busy) ↦ elim (Bool-cases (work.block.index == block_index)) [
        | inr other ↦
            mismatched m work e busy (λ q. cc ((==_iff work.block.index _).1 q))
              (rw (e, with_miner, busy, other))
        | inl same ↦
            let (latest, top) = get_latest_block-some sha pool.blockchain v.chain_valid in
            busy_cases m work latest e busy ((==_iff work.block.index _).0 same) top
      ]
    ]
  ]
