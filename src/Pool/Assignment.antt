-- ===== src/Pool/Assignment.antt =====
-- GetWork, branch by branch.
use red_team_coin.Base.{
  ℕ, ◌≡◌, ◌⊎◌, refl, ◌∙◌, inl, inr, true, false, none, some, List, [], ◌∷◌, ltb, lt64, ◌-◌, Text,
  Option-cases, Bool-cases,
}
use red_team_coin.Base.Dict.{Dict, lookup, delete}
use red_team_coin.Outcome.{ok, err}
use red_team_coin.Chain.{Block, get_latest_block}
use red_team_coin.Chain.Append.{get_latest_block-some}
use red_team_coin.Pool.{MinerRecord, PendingWork, MiningPool, miner_not_registered, with_miner}
use red_team_coin.Pool.Registry.{set_miner}
use red_team_coin.Pool.Work.{
  work_lifetime, new_work_block, set_pending, assign_from, assign_work, reuse_or_assign, get_work,
}
use red_team_coin.Pool.Invariant.{IsSound}

-- The pool once the miner's heartbeat is noted.
abbrev pub seen : Text → MinerRecord → ℕ → MiningPool → MiningPool
seen id m now pool = set_miner id (record m { last_heartbeat = now }) pool

module _ (id : Text) (now : ℕ) (pool : MiningPool) where
  -- What is pending when the miner gets other work: everything, if it had none, or all but its own,
  -- which was five minutes old or not ahead of the chain.
  pub data Cleared (after : Dict PendingWork) : Type 0 where
    idle : lookup id pool.pending_work ≡ none → after ≡ pool.pending_work → Cleared after
    discarded :
        (work : PendingWork) (latest : Block)
        → lookup id pool.pending_work ≡ some work
        → get_latest_block pool.blockchain ≡ some latest
        → (ltb (now - work.assigned_at) work_lifetime ≡ false)
          ⊎ (lt64 latest.index work.block.index ≡ false)
        → after ≡ delete id pool.pending_work
        → Cleared after

module _ (id : Text) (now : ℕ) (pool : MiningPool) where
  -- The branches of GetWork, each with its condition and its result.
  pub data Assignment : Type 0 where
    unregistered :
        lookup id pool.miners ≡ none
        → get_work id now pool ≡ (pool, err miner_not_registered)
        → Assignment
    reused :
        (m : MinerRecord) (work : PendingWork) (latest : Block)
        → lookup id pool.miners ≡ some m
        → lookup id pool.pending_work ≡ some work
        → get_latest_block pool.blockchain ≡ some latest
        → ltb (now - work.assigned_at) work_lifetime ≡ true
        → lt64 latest.index work.block.index ≡ true
        → get_work id now pool ≡ (seen id m now pool, ok work.block)
        → Assignment
    queued :
        (m : MinerRecord) (b : Block) (rest : List Block) (pending : Dict PendingWork)
        → lookup id pool.miners ≡ some m
        → pool.work_queue ≡ b ∷ rest
        → Cleared id now pool pending
        → get_work id now pool ≡ (
          set_pending id b now
              (record (seen id m now pool) { work_queue = rest; pending_work = pending }),
          ok b,
        )
        → Assignment
    generated :
        (m : MinerRecord) (latest : Block) (pending : Dict PendingWork)
        → lookup id pool.miners ≡ some m
        → get_latest_block pool.blockchain ≡ some latest
        → pool.work_queue ≡ []
        → Cleared id now pool pending
        → get_work id now pool ≡ (
          set_pending id
              (new_work_block latest now)
              now
              (record (seen id m now pool) { pending_work = pending }),
          ok (new_work_block latest now),
        )
        → Assignment

module _ (id : Text) (now : ℕ) (pool : MiningPool) (m : MinerRecord) (latest : Block)
    (found : lookup id pool.miners ≡ some m)
    (top : get_latest_block pool.blockchain ≡ some latest) where
  assign_cases :
      (pending : Dict PendingWork) (queue : List Block)
      → Cleared id now pool pending
      → pool.work_queue ≡ queue
      → get_work id now pool
        ≡ assign_from queue id now (record (seen id m now pool) { pending_work = pending })
      → Assignment id now pool
  unfolding assign_from set_miner
  assign_cases pending (b ∷ rest) c q r = queued m b rest pending found q c r
  assign_cases pending [] c q r =
      generated m latest pending found top q c (r ∙ rw (top, assign_from))

  busy_cases :
      (work : PendingWork) → lookup id pool.pending_work ≡ some work → Assignment id now pool
  unfolding get_work with_miner reuse_or_assign assign_work set_miner
  busy_cases work busy =
      let cleared =
        λ (why : (ltb (now - work.assigned_at) work_lifetime ≡ false)
            ⊎ (lt64 latest.index work.block.index ≡ false)).
          assign_cases (delete id pool.pending_work) pool.work_queue
            (discarded work latest busy top why refl) refl in
      elim (Bool-cases (ltb (now - work.assigned_at) work_lifetime)) [
        | inl fresh ↦ elim (Bool-cases (lt64 latest.index work.block.index)) [
          | inl ahead ↦
              reused m work latest found busy top fresh ahead
                (rw (found, with_miner, busy, top, fresh, ahead, reuse_or_assign))
          | inr behind ↦
              cleared (inr behind)
                (rw (found, with_miner, busy, top, fresh, behind, reuse_or_assign))
        ]
        | inr old ↦ cleared (inl old) (rw (found, with_miner, busy, top, old, reuse_or_assign))
      ]

-- In a sound pool GetWork takes one of the branches of `Assignment`, each with its condition and its
-- result: the miner is unknown; its pending work is returned again, being younger than five minutes
-- and ahead of the chain; or, with no pending work or once that has been taken away because it is
-- older or not ahead of the chain, it gets the head of the queue, or a new block if that is empty.
pub get_work_cases :
    {sha : Text → Text} (pool : MiningPool)
    → IsSound sha pool
    → (id : Text) (now : ℕ) → Assignment id now pool
unfolding get_work with_miner assign_work set_miner
get_work_cases {sha} pool v id now =
    let (latest, top) = get_latest_block-some sha pool.blockchain v.chain_valid in
    elim (Option-cases (lookup id pool.miners)) [
      | inl e ↦ unregistered e (rw (e, with_miner))
      | inr (m, e) ↦ elim (Option-cases (lookup id pool.pending_work)) [
        | inl none_busy ↦
            assign_cases id now pool m latest e top pool.pending_work pool.work_queue
              (idle none_busy refl) refl (rw (e, with_miner, none_busy))
        | inr (work, busy) ↦ busy_cases id now pool m latest e top work busy
      ]
    ]
