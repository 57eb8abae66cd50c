-- ===== src/Pool/Work.antt =====
-- GetWork, SubmitWork and the work generator of server/pool.go.
use red_team_coin.Base.{
  ℕ, ◌-◌, ◌*◌, ◌/◌, ◌^◌, not, none, some, List, [], ◌∷◌, ◌++◌, ltb, ◌==◌, if◌then◌else◌, length,
  Text, text, I64, add64, lt64, format_int,
}
use red_team_coin.Base.Dict.{lookup, insert, delete, delete_where}
use red_team_coin.Outcome.{Outcome, ok, err, panic}
use red_team_coin.Chain.{Block, Blockchain, ChainError, get_latest_block, add_block}
use red_team_coin.EventLog.{words, number}
use red_team_coin.Pool.{
  MinerRecord, PendingWork, MiningPool, PoolError, miner_not_registered, no_pending_work,
  block_index_mismatch, block_is_stale, rejected_by_chain, report, with_miner,
}
use red_team_coin.Pool.Registry.{set_miner}

-- 5 * time.Minute.
abbrev pub work_lifetime : ℕ
work_lifetime = 5 * 60 * 10 ^ 9

-- The literal of a new block on top of the latest one; Unix() drops the nanoseconds.
unfoldable pub new_work_block : Block → ℕ → Block
new_work_block latest now = record {
  index = add64 latest.index 1;
  timestamp = now / 10 ^ 9;
  data_text = text "Block data " ++ format_int (add64 latest.index 1);
  previous_hash = latest.hash;
  hash = [];
  nonce = 0;
  mined_by = [];
}

unfoldable pub set_pending : Text → Block → ℕ → MiningPool → MiningPool
set_pending id block now pool = record pool {
  pending_work =
      insert id (record { miner_id = id; block = block; assigned_at = now }) pool.pending_work;
}

-- The select at the end of GetWork, over the queue's blocks: the first, or else a new one.
unfoldable pub assign_from :
    List Block → Text → ℕ → MiningPool → MiningPool × Outcome PoolError Block
assign_from (block ∷ rest) id now pool =
    (set_pending id block now (record pool { work_queue = rest }), ok block)
assign_from [] id now pool = elim (get_latest_block pool.blockchain) [
  | none ↦ (pool, panic)
  | some latest ↦ let block = new_work_block latest now in (set_pending id block now pool, ok block)
]

unfoldable pub assign_work : Text → ℕ → MiningPool → MiningPool × Outcome PoolError Block
assign_work id now pool = assign_from pool.work_queue id now pool

-- What GetWork does with work that is pending already.
unfoldable pub reuse_or_assign :
    Text → ℕ → PendingWork → MiningPool → MiningPool × Outcome PoolError Block
reuse_or_assign id now work pool =
    let discarded =
      assign_work id now (record pool { pending_work = delete id pool.pending_work }) in
    elim (get_latest_block pool.blockchain) [
      | none ↦ if ltb (now - work.assigned_at) work_lifetime then (pool, panic) else discarded
      | some latest ↦
          if ltb (now - work.assigned_at) work_lifetime
          then if lt64 latest.index work.block.index then (pool, ok work.block) else discarded
          else discarded
    ]

unfoldable pub get_work : Text → ℕ → MiningPool → MiningPool × Outcome PoolError Block
get_work id now pool = with_miner id miner_not_registered pool λ miner.
    let seen = set_miner id (record miner { last_heartbeat = now }) pool in
    elim (lookup id pool.pending_work) [
      | none ↦ assign_work id now seen
      | some work ↦ reuse_or_assign id now work seen
    ]

-- The end of SubmitWork, once the chain holds the block.
unfoldable pub credit_miner : Text → MinerRecord → Block → ℕ → MiningPool → MiningPool
credit_miner id miner block now pool =
    let credited =
      set_miner id
        (record miner { blocks_mined = add64 miner.blocks_mined 1; last_heartbeat = now }) pool in
    report (text "block_mined") (text "Block successfully mined") id
      ((text "block_index", number block.index)
        ∷ (text "hash", words block.hash)
        ∷ (text "reward", number pool.block_reward)
        ∷ (text "nonce", number block.nonce)
        ∷ [])
      now
      (record credited {
        pending_work =
            delete_where (λ w. w.block.index == block.index) (delete id pool.pending_work);
      })

-- What SubmitWork does with the answer of AddBlock.
unfoldable pub settle_submission :
    Text
    → MinerRecord
    → Block
    → ℕ
    → MiningPool
    → Blockchain × Outcome ChainError (Unit {0})
    → MiningPool × Outcome PoolError I64
settle_submission id miner block now pool (chain, ok _) =
    (credit_miner id miner block now (record pool { blockchain = chain }), ok pool.block_reward)
settle_submission id miner block now pool (chain, err e) = (
  record pool { blockchain = chain; pending_work = delete id pool.pending_work },
  err (rejected_by_chain e),
)
settle_submission id miner block now pool (chain, panic) =
    (record pool { blockchain = chain }, panic)

-- The block of pending work with the submitted solution written into it.
unfoldable pub solve : Text → I64 → Text → Block → Block
solve id nonce hash block = record block { nonce = nonce; hash = hash; mined_by = id }

module _ (sha : Text → Text) where
  -- SubmitWork from the point where the solution is written into the pending block.
  unfoldable pub submit_solved :
      Text → MinerRecord → Block → ℕ → MiningPool → MiningPool × Outcome PoolError I64
  submit_solved id miner block now pool = elim (get_latest_block pool.blockchain) [
    | none ↦ (pool, panic)
    | some latest ↦
        if not (block.index == add64 latest.index 1)
        then (record pool { pending_work = delete id pool.pending_work }, err block_is_stale)
        else settle_submission id miner block now pool (add_block sha block pool.blockchain)
  ]

  -- The reward stands for (true, reward, nil), an error for (false, 0, err).
  unfoldable pub submit_work :
      Text → I64 → I64 → Text → ℕ → MiningPool → MiningPool × Outcome PoolError I64
  submit_work id block_index nonce hash now pool = with_miner id miner_not_registered pool λ miner.
      elim (lookup id pool.pending_work) [
        | none ↦ (pool, err no_pending_work)
        | some work ↦
            let block = solve id nonce hash work.block in
            if not (work.block.index == block_index)
            then (pool, err block_index_mismatch)
            else submit_solved id miner block now (record pool {
              pending_work = insert id (record work { block = block }) pool.pending_work;
            })
      ]

-- The capacity of the queue's channel.
abbrev pub queue_capacity : ℕ
queue_capacity = 100

-- generateWork at a tick: first it makes a block from the latest one, …
unfoldable pub produce_work : ℕ → MiningPool → Outcome PoolError Block
produce_work now pool = elim (get_latest_block pool.blockchain) [
  | none ↦ panic
  | some latest ↦ ok (new_work_block latest now)
]

-- … then it sends that to the queue, unless the queue is full.
unfoldable pub offer_work : Block → MiningPool → MiningPool
offer_work block pool =
    if ltb (length pool.work_queue) queue_capacity
    then record pool { work_queue = pool.work_queue ++ block ∷ [] }
    else pool
