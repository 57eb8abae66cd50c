-- ===== src/Pool/Returns.antt =====
-- GetWork and SubmitWork on a sound pool: they return, and leave the pool sound.
use red_team_coin.Base.{
  ℕ, ◌≤◌, ◌≢◌, inl, inr, List, [], ◌∷◌, arith, length, ltb, ◌==◌, lt64, add64, Text, I64,
  Option-cases, Bool-cases, ◌-◌,
}
use red_team_coin.Base.Dict.{lookup, insert-IsDict, delete-IsDict, delete_where-IsDict}
use red_team_coin.Outcome.{Outcome, panic}
use red_team_coin.Chain.{Block, Blockchain}
use red_team_coin.Chain.Links.{HexDigest}
use red_team_coin.Chain.Append.{
  IsValidChain, get_latest_block-some, add_block_cases, add_block-IsValidChain,
}
use red_team_coin.EventLog.{PoolLogger}
use red_team_coin.Pool.{
  MinerRecord, PendingWork, MiningPool, PoolError, set_logger, shutdown, with_miner,
}
use red_team_coin.Pool.Work.{
  work_lifetime, set_pending, assign_from, assign_work, reuse_or_assign, get_work, credit_miner,
  settle_submission, submit_solved, submit_work,
}
use red_team_coin.Pool.Invariant.{
  IsSound, with_pending-IsSound, set_miner-IsSound, looked_up-IsThrottled, report-IsSound,
}

-- The pool after a call is sound, and the call returned.
abbrev pub Returns {ℓ} : {R : Type ℓ} → (Text → Text) → MiningPool × Outcome PoolError R → Type ℓ
Returns sha r = IsSound sha r.0 × (r.1 ≢ panic)

module _ {sha : Text → Text} (pool : MiningPool) (v : IsSound sha pool) where
  pub with_queue-IsSound :
      (queue : List Block) → length queue ≤ 100 → IsSound sha (record pool { work_queue = queue })
  with_queue-IsSound queue h = record {
    chain_valid = v.chain_valid;
    miners_unique = v.miners_unique;
    pending_unique = v.pending_unique;
    throttled = v.throttled;
    queue_bounded = h;
    reward_fixed = v.reward_fixed;
  }

  with_chain-IsSound :
      (chain : Blockchain)
      → IsValidChain sha chain
      → IsSound sha (record pool { blockchain = chain })
  with_chain-IsSound chain c = record {
    chain_valid = c;
    miners_unique = v.miners_unique;
    pending_unique = v.pending_unique;
    throttled = v.throttled;
    queue_bounded = v.queue_bounded;
    reward_fixed = v.reward_fixed;
  }

  pub set_logger-IsSound : (logger : PoolLogger) → IsSound sha (set_logger logger pool)
  unfolding set_logger
  set_logger-IsSound logger = record {
    chain_valid = v.chain_valid;
    miners_unique = v.miners_unique;
    pending_unique = v.pending_unique;
    throttled = v.throttled;
    queue_bounded = v.queue_bounded;
    reward_fixed = v.reward_fixed;
  }

  pub shutdown-IsSound : IsSound sha (shutdown pool)
  unfolding shutdown
  shutdown-IsSound = record {
    chain_valid = v.chain_valid;
    miners_unique = v.miners_unique;
    pending_unique = v.pending_unique;
    throttled = v.throttled;
    queue_bounded = v.queue_bounded;
    reward_fixed = v.reward_fixed;
  }

  set_pending-IsSound : (id : Text) (b : Block) (now : ℕ) → IsSound sha (set_pending id b now pool)
  unfolding set_pending
  set_pending-IsSound id b now =
      with_pending-IsSound pool v _ (insert-IsDict id _ pool.pending_work v.pending_unique)

module _ {sha : Text → Text} (pool : MiningPool) (v : IsSound sha pool) where
  assign_from-Returns :
      (queue : List Block) (id : Text) (now : ℕ)
      → length queue ≤ 100
      → Returns sha (assign_from queue id now pool)
  unfolding assign_from
  assign_from-Returns (block ∷ rest) id now h =
      (set_pending-IsSound _ (with_queue-IsSound pool v rest (omega arith)) id block now, λ e. cc)
  assign_from-Returns [] id now h =
      let (latest, e) = get_latest_block-some sha pool.blockchain v.chain_valid in
      rw (e, assign_from) (set_pending-IsSound pool v id _ now, λ e. cc)

  assign_work-Returns : (id : Text) (now : ℕ) → Returns sha (assign_work id now pool)
  unfolding assign_work
  assign_work-Returns id now = assign_from-Returns pool.work_queue id now v.queue_bounded

module _ {sha : Text → Text} (pool : MiningPool) (v : IsSound sha pool) where
  reuse_or_assign-Returns :
      (id : Text) (now : ℕ) (work : PendingWork) → Returns sha (reuse_or_assign id now work pool)
  unfolding reuse_or_assign
  reuse_or_assign-Returns id now work =
      let (latest, e) = get_latest_block-some sha pool.blockchain v.chain_valid in
      let cleared =
        with_pending-IsSound pool v _ (delete-IsDict id pool.pending_work v.pending_unique) in
      let again = assign_work-Returns _ cleared id now in
      elim (Bool-cases (ltb (now - work.assigned_at) work_lifetime)) [
        | inl fresh ↦ elim (Bool-cases (lt64 latest.index work.block.index)) [
          | inl ahead ↦ rw (e, fresh, ahead, reuse_or_assign) (v, λ e. cc)
          | inr behind ↦ rw (e, fresh, behind, reuse_or_assign) again
        ]
        | inr old ↦ rw (e, old, reuse_or_assign) again
      ]

module _ {sha : Text → Text} (pool : MiningPool) (v : IsSound sha pool) where
  -- In a sound pool a request for work returns, and leaves the pool sound.
  pub get_work-Returns : (id : Text) (now : ℕ) → Returns sha (get_work id now pool)
  unfolding get_work with_miner
  get_work-Returns id now = elim (Option-cases (lookup id pool.miners)) [
    | inl e ↦ rw (e, with_miner) (v, λ e. cc)
    | inr (m, e) ↦
        let seen =
          set_miner-IsSound pool v id (record m { last_heartbeat = now })
            (looked_up-IsThrottled pool v id e) in
        elim (Option-cases (lookup id pool.pending_work)) [
          | inl idle ↦ rw (e, with_miner, idle) (assign_work-Returns _ seen id now)
          | inr (work, busy) ↦ rw (e, with_miner, busy) (reuse_or_assign-Returns _ seen id now work)
        ]
  ]

  credit_miner-IsSound :
      (id : Text) (m : MinerRecord) (block : Block) (now : ℕ)
      → m.cpu_throttle_percent ≤ 100
      → IsSound sha (credit_miner id m block now pool)
  unfolding credit_miner
  credit_miner-IsSound id m block now t =
      report-IsSound _
        (with_pending-IsSound _ (set_miner-IsSound pool v id _ t) _
          (delete_where-IsDict _ _ (delete-IsDict id pool.pending_work v.pending_unique)))
        _ _ _ _ _

module _ {sha : Text → Text} (hex : HexDigest sha) (pool : MiningPool) (v : IsSound sha pool) where
  submit_solved-Returns :
      (id : Text) (m : MinerRecord) (block : Block) (now : ℕ)
      → m.cpu_throttle_percent ≤ 100
      → Returns sha (submit_solved sha id m block now pool)
  unfolding submit_solved settle_submission
  submit_solved-Returns id m block now t =
      let (latest, e) = get_latest_block-some sha pool.blockchain v.chain_valid in
      let cleared =
        with_pending-IsSound pool v _ (delete-IsDict id pool.pending_work v.pending_unique) in
      let kept = add_block-IsValidChain sha hex block pool.blockchain v.chain_valid in
      elim (Bool-cases (block.index == add64 latest.index 1)) [
        | inr stale ↦ rw (e, submit_solved, stale) (cleared, λ e. cc)
        | inl next ↦ elim (add_block_cases sha hex block latest pool.blockchain v.chain_valid e) [
          | inl (_, r) ↦
              rw (e, submit_solved, next, r, settle_submission)
                (
                  credit_miner-IsSound _ (with_chain-IsSound pool v _ kept) id m block now t,
                  λ e. cc,
                )
          | inr (_, r) ↦
              rw (e, submit_solved, next, r, settle_submission)
                (
                  with_pending-IsSound _ (with_chain-IsSound pool v _ kept) _
                      (delete-IsDict id pool.pending_work v.pending_unique),
                  λ e. cc,
                )
        ]
      ]

module _ {sha : Text → Text} (hex : HexDigest sha) (pool : MiningPool) (v : IsSound sha pool) where
  -- In a sound pool a submission returns, whatever it holds, and leaves the pool sound.
  pub submit_work-Returns :
      (id : Text) (block_index nonce : I64) (hash : Text) (now : ℕ)
      → Returns sha (submit_work sha id block_index nonce hash now pool)
  unfolding submit_work with_miner
  submit_work-Returns id block_index nonce hash now = elim (Option-cases (lookup id pool.miners)) [
    | inl e ↦ rw (e, with_miner) (v, λ e. cc)
    | inr (m, e) ↦ elim (Option-cases (lookup id pool.pending_work)) [
      | inl idle ↦ rw (e, with_miner, idle) (v, λ e. cc)
      | inr (work, busy) ↦ elim (Bool-cases (work.block.index == block_index)) [
        | inr other ↦ rw (e, with_miner, busy, other) (v, λ e. cc)
        | inl same ↦
            rw (e, with_miner, busy, same)
              (submit_solved-Returns hex _
                (with_pending-IsSound pool v _
                  (insert-IsDict id _ pool.pending_work v.pending_unique))
                id m _ now (looked_up-IsThrottled pool v id e))
      ]
    ]
  ]
