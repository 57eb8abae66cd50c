-- ===== src/Pool/Handed.antt =====
-- What GetWork hands out (server/pool.go), told by what can be looked up afterwards.
use red_team_coin.Base.{
  ℕ, ◌-◌, ◌+◌, ◌*◌, ◌^◌, ◌/◌, ◌%◌, ◌<◌, ◌≤◌, ◌≡◌, ◌≢◌, refl, sym, ap, ◌∙◌, inl, inr, true, false,
  none, some, List, [], ◌∷◌, ◌++◌, lt64, Text, text, text_eq, text_eq_iff, text_eq_refl, format_int,
  arith, Bool-cases,
}
use red_team_coin.Base.Dict.{Dict, lookup, insert, lookup-insert, lookup-delete}
use red_team_coin.Outcome.{Outcome, ok, err}
use red_team_coin.Chain.{Block, get_latest_block}
use red_team_coin.Pool.{MinerRecord, PendingWork, MiningPool, PoolError, miner_not_registered}
use red_team_coin.Pool.Registry.{set_miner}
use red_team_coin.Pool.Work.{new_work_block, set_pending, get_work}
use red_team_coin.Pool.Invariant.{IsSound}
use red_team_coin.Pool.Assignment.{
  Assignment, unregistered, reused, queued, generated, Cleared, idle, discarded, seen,
  get_work_cases,
}

text_eq-apart : (a b : Text) → b ≢ a → text_eq a b ≡ false
text_eq-apart a b other = elim (Bool-cases (text_eq a b)) [
  | inl same ↦ absurd (other (sym ((text_eq_iff a b).0 same)))
  | inr e ↦ e
]

-- Nothing else in the dictionary has changed.
abbrev pub IsElsewhere {ℓ} : {V : Type ℓ} → Text → Dict V → Dict V → Type ℓ
IsElsewhere id before after = (k : Text) → k ≢ id → lookup k after ≡ lookup k before

module _ (id : Text) (now : ℕ) (pool : MiningPool) where
  -- The miner's heartbeat is noted, and chain, reward and the other miners are as before.
  pub record Hears (m : MinerRecord) (after : MiningPool) : Type 0 where
    pub heard : lookup id after.miners ≡ some (record m { last_heartbeat = now })
    pub other_miners : IsElsewhere id pool.miners after.miners
    pub same_chain : after.blockchain ≡ pool.blockchain
    pub same_reward : after.block_reward ≡ pool.block_reward

  -- The block is the miner's work from now on, and all other work is as before.
  pub record Assigns (b : Block) (after : MiningPool) : Type 0 where
    pub assigned :
        lookup id after.pending_work ≡ some (record { miner_id = id; block = b; assigned_at = now })
    pub other_work : IsElsewhere id pool.pending_work after.pending_work

  -- No pending work, or work that is five minutes old or not above the chain (int64).
  pub data NeedsWork : Type 0 where
    has_none : lookup id pool.pending_work ≡ none → NeedsWork
    is_old :
        (work : PendingWork)
        → lookup id pool.pending_work ≡ some work
        → 5 * 60 * 1_000_000_000 ≤ now - work.assigned_at
        → NeedsWork
    is_overtaken :
        (work : PendingWork) (latest : Block)
        → lookup id pool.pending_work ≡ some work
        → get_latest_block pool.blockchain ≡ some latest
        → lt64 latest.index work.block.index ≡ false
        → NeedsWork

  -- The result of GetWork, with the pool that it leaves.
  pub data Hands (after : MiningPool) (result : Outcome PoolError Block) : Type 0 where
    refuses :
        lookup id pool.miners ≡ none
        → result ≡ err miner_not_registered
        → after ≡ pool
        → Hands after result
    repeats :
        (m : MinerRecord) (work : PendingWork) (latest : Block)
        → lookup id pool.miners ≡ some m
        → lookup id pool.pending_work ≡ some work
        → get_latest_block pool.blockchain ≡ some latest
        → now - work.assigned_at < 5 * 60 * 1_000_000_000
        → lt64 latest.index work.block.index ≡ true
        → result ≡ ok work.block
        → Hears m after
        → (after.pending_work ≡ pool.pending_work) × (after.work_queue ≡ pool.work_queue)
        → Hands after result
    takes :
        (m : MinerRecord) (b : Block) (rest : List Block)
        → lookup id pool.miners ≡ some m
        → NeedsWork
        → pool.work_queue ≡ b ∷ rest
        → result ≡ ok b
        → Hears m after
        → Assigns b after
        → after.work_queue ≡ rest
        → Hands after result
    makes :
        (m : MinerRecord) (b latest : Block)
        → lookup id pool.miners ≡ some m
        → NeedsWork
        → pool.work_queue ≡ []
        → get_latest_block pool.blockchain ≡ some latest
        → (b.index ≡ (latest.index + 1) % 2 ^ 64) × (b.previous_hash ≡ latest.hash)
        → (b.timestamp ≡ now / 1_000_000_000)
          × (b.nonce ≡ 0)
          × (b.data_text ≡ text "Block data " ++ format_int b.index)
        → result ≡ ok b
        → Hears m after
        → Assigns b after
        → after.work_queue ≡ []
        → Hands after result

  insert-IsElsewhere {ℓ} :
      {V : Type ℓ} (v : V) (dict before : Dict V)
      → IsElsewhere id before dict
      → IsElsewhere id before (insert id v dict)
  insert-IsElsewhere v dict before h k other =
      let apart = text_eq-apart id k other in lookup-insert id k v dict ∙ rw apart (h k other)

  inserted {ℓ} : {V : Type ℓ} (v : V) (dict : Dict V) → lookup id (insert id v dict) ≡ some v
  inserted v dict = lookup-insert id id v dict ∙ rw (text_eq_refl id) refl

  seen-Hears :
      (m : MinerRecord) (after : MiningPool)
      → after.miners ≡ (seen id m now pool).miners
      → after.blockchain ≡ pool.blockchain
      → after.block_reward ≡ pool.block_reward
      → Hears m after
  unfolding set_miner
  seen-Hears m after miners chain reward = record {
    heard = ap (lookup id) miners ∙ inserted (record m { last_heartbeat = now }) pool.miners;
    other_miners = λ k other.
        ap (lookup k) miners
        ∙ insert-IsElsewhere (record m { last_heartbeat = now }) pool.miners pool.miners
            (λ j o. refl) k other;
    same_chain = chain;
    same_reward = reward;
  }

  Cleared-IsElsewhere :
      (dict : Dict PendingWork) → Cleared id now pool dict → IsElsewhere id pool.pending_work dict
  Cleared-IsElsewhere dict (idle free e) k other = rw e refl
  Cleared-IsElsewhere dict (discarded work latest busy top why e) k other =
      let apart = text_eq-apart id k other in
      rw e (lookup-delete id k pool.pending_work ∙ rw apart refl)

  Cleared-NeedsWork : (dict : Dict PendingWork) → Cleared id now pool dict → NeedsWork
  Cleared-NeedsWork dict (idle free e) = has_none free
  Cleared-NeedsWork dict (discarded work latest busy top (inl old) e) =
      is_old work busy (ground arith)
  Cleared-NeedsWork dict (discarded work latest busy top (inr behind) e) =
      is_overtaken work latest busy top behind

  Cleared-Assigns :
      (b : Block) (dict : Dict PendingWork) (after : MiningPool)
      → Cleared id now pool dict
      → after.pending_work ≡ insert id (record { miner_id = id; block = b; assigned_at = now }) dict
      → Assigns b after
  Cleared-Assigns b dict after cleared e =
      let work : PendingWork = record { miner_id = id; block = b; assigned_at = now } in
      record {
        assigned = ap (lookup id) e ∙ inserted work dict;
        other_work = λ k other.
            ap (lookup k) e
            ∙ insert-IsElsewhere work dict pool.pending_work (Cleared-IsElsewhere dict cleared) k
                other;
      }

  -- The branches in the words of what can be looked up.
  Assignment-Hands :
      Assignment id now pool → Hands (get_work id now pool).0 (get_work id now pool).1
  unfolding set_pending set_miner new_work_block
  Assignment-Hands (unregistered missing e) = rw e (refuses missing refl refl)
  Assignment-Hands (reused m work latest known busy top fresh ahead e) = rw e (
      repeats m work latest known busy top (ground arith) ahead refl (seen-Hears m _ refl refl refl)
        (refl, refl))
  Assignment-Hands (queued m b rest pending known queue cleared e) = rw e (
      takes m b rest known (Cleared-NeedsWork pending cleared) queue refl
        (seen-Hears m _ refl refl refl) (Cleared-Assigns b pending _ cleared refl) refl)
  Assignment-Hands (generated m latest pending known top empty cleared e) = rw e (
      makes m (new_work_block latest now) latest known (Cleared-NeedsWork pending cleared) empty top
        (refl, refl) (refl, refl, refl) refl (seen-Hears m _ refl refl refl)
        (Cleared-Assigns (new_work_block latest now) pending _ cleared refl) empty)

-- In a sound pool GetWork refuses a miner that is not registered and changes nothing. Otherwise it
-- notes the heartbeat, and leaves the chain, the reward, the other miners and their work as they are.
-- Pending work that is younger than five minutes and above the latest block comes again. A miner
-- without such work gets the head of the queue, which leaves the queue, or, if that is empty, a new
-- block on top of the latest one, with the time in seconds, nonce 0 and its number as data, and it is
-- pending for the miner from then on.
pub get_work-Hands :
    {sha : Text → Text} (pool : MiningPool)
    → IsSound sha pool
    → (id : Text) (now : ℕ) → Hands id now pool (get_work id now pool).0 (get_work id now pool).1
get_work-Hands pool v id now = Assignment-Hands id now pool (get_work_cases pool v id now)
