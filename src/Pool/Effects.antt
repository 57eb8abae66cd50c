-- ===== src/Pool/Effects.antt =====
-- What an accepted and what a rejected submission change.
use red_team_coin.Base.{
  ℕ, ◌≡◌, ◌≢◌, refl, sym, ap, ◌∙◌, Bool, false, none, some, ◌==◌, ==_iff, add64, Text, text_eq,
  text_eq_refl, I64,
}
use red_team_coin.Base.Dict.{
  lookup, insert, delete, delete_where, AllValues-lookup, delete_where-AllValues, lookup-insert,
  lookup-delete, lookup-delete_where-none,
}
use red_team_coin.Outcome.{ok, err, ok-injective}
use red_team_coin.Chain.{Block, get_latest_block}
use red_team_coin.Chain.Links.{Link, HexDigest}
use red_team_coin.Chain.Append.{extend}
use red_team_coin.Pool.{MinerRecord, PendingWork, MiningPool, PoolError, report}
use red_team_coin.Pool.Registry.{set_miner}
use red_team_coin.Pool.Work.{credit_miner, solve, submit_work}
use red_team_coin.Pool.Invariant.{IsSound}
use red_team_coin.Pool.Submission.{
  unregistered, idle, mismatched, stale, refused, accepted, with_solution, without_work,
  submit_work_cases,
}

-- `q` differs from `p` in the pending work of `id` at most.
pub record OnlyWorkOf (id : Text) (p q : MiningPool) : Type 0 where
  pub same_chain : q.blockchain ≡ p.blockchain
  pub same_miners : q.miners ≡ p.miners
  pub same_queue : q.work_queue ≡ p.work_queue
  pub same_reward : q.block_reward ≡ p.block_reward
  pub same_logger : q.logger ≡ p.logger
  pub same_work :
      (j : Text) → text_eq id j ≡ false → lookup j q.pending_work ≡ lookup j p.pending_work

OnlyWorkOf-refl : (id : Text) (p : MiningPool) → OnlyWorkOf id p p
OnlyWorkOf-refl id p = record {
  same_chain = refl;
  same_miners = refl;
  same_queue = refl;
  same_reward = refl;
  same_logger = refl;
  same_work = λ j h. refl;
}

OnlyWorkOf-without_work :
    (id : Text) (work : PendingWork) (b : Block) (p : MiningPool)
    → OnlyWorkOf id p (without_work id work b p)
OnlyWorkOf-without_work id work b p = record {
  same_chain = refl;
  same_miners = refl;
  same_queue = refl;
  same_reward = refl;
  same_logger = refl;
  same_work = λ j h. simp (lookup-delete, lookup-insert, h);
}

-- What a submission that adds `b` to the chain leaves behind.
pub record Rewarded (id : Text) (b : Block) (now : ℕ) (p q : MiningPool) : Type 0 where
  pub chain_grows : q.blockchain ≡ extend p.blockchain b
  pub miner_credited :
      (m : MinerRecord)
      → lookup id p.miners ≡ some m
      → lookup id q.miners
        ≡ some (record m { blocks_mined = add64 m.blocks_mined 1; last_heartbeat = now })
  pub others_kept : (j : Text) → text_eq id j ≡ false → lookup j q.miners ≡ lookup j p.miners
  pub own_work_gone : lookup id q.pending_work ≡ none
  pub height_cleared :
      (j : Text) (w : PendingWork) → lookup j q.pending_work ≡ some w → w.block.index ≢ b.index

module _ (id : Text) (m : MinerRecord) (work : PendingWork) (b : Block) (now : ℕ) (p : MiningPool)
    (found : lookup id p.miners ≡ some m) where
  credit_miner-Rewarded : Rewarded id b now p (
      credit_miner id m b now
        (record (with_solution id work b p) { blockchain = extend p.blockchain b }))
  unfolding credit_miner set_miner report
  credit_miner-Rewarded =
      let taken = delete id (insert id (record work { block = b }) p.pending_work) in
      let test : PendingWork → Bool = λ w. w.block.index == b.index in
      record {
        chain_grows = refl;
        miner_credited =
            λ m' found'. let same : m ≡ m' = cc in simp (lookup-insert, text_eq_refl) (rw (← same));
        others_kept = λ j h. simp (lookup-insert, h);
        own_work_gone = lookup-delete_where-none test id taken (simp (lookup-delete, text_eq_refl));
        height_cleared = λ j w at_j e.
            let other =
              AllValues-lookup (λ u. test u ≡ false) j (delete_where test taken)
                (delete_where-AllValues test taken) at_j in
            cc (other, (==_iff w.block.index b.index).1 e);
      }

module _ {sha : Text → Text} (hex : HexDigest sha) (pool : MiningPool) (v : IsSound sha pool)
    (id : Text) (block_index nonce : I64) (hash : Text) (now : ℕ) where
  -- A submission that is answered with an error changes neither the chain nor any miner's record,
  -- nor the queue, the reward and the event log, nor the work of any other miner.
  pub submit_work-rejected :
      (e : PoolError)
      → (submit_work sha id block_index nonce hash now pool).1 ≡ err e
      → OnlyWorkOf id pool (submit_work sha id block_index nonce hash now pool).0
  submit_work-rejected e h = elim (submit_work_cases hex pool v id block_index nonce hash now) [
    | unregistered _ r ↦ rw r (OnlyWorkOf-refl id pool)
    | idle m _ _ r ↦ rw r (OnlyWorkOf-refl id pool)
    | mismatched m w _ _ _ r ↦ rw r (OnlyWorkOf-refl id pool)
    | stale m w _ _ _ _ _ _ r ↦ rw r (OnlyWorkOf-without_work id w _ pool)
    | refused m w _ _ _ _ _ _ _ r ↦ rw r (OnlyWorkOf-without_work id w _ pool)
    | accepted m w _ _ _ _ _ _ r ↦ absurd (cc (rw r at h))
  ]

  -- An accepted submission pays 50. Its block, the pending one with the submitted nonce and hash
  -- and the miner's name, follows the latest block and is appended to the chain; the miner's count
  -- of blocks goes up by one, no other miner's record changes, the miner's work is taken away, and
  -- so is everybody's work at that height.
  pub submit_work-accepted :
      (reward : I64)
      → (submit_work sha id block_index nonce hash now pool).1 ≡ ok reward
      → (b latest : Block) × (reward ≡ 50)
        × (b.index ≡ block_index)
        × (b.nonce ≡ nonce)
        × (b.hash ≡ hash)
        × (b.mined_by ≡ id)
        × (get_latest_block pool.blockchain ≡ some latest)
        × Link sha pool.blockchain.difficulty latest b
        × Rewarded id b now pool (submit_work sha id block_index nonce hash now pool).0
  submit_work-accepted reward h =
      elim (submit_work_cases hex pool v id block_index nonce hash now) [
        | unregistered _ r ↦ absurd (cc (rw r at h))
        | idle m _ _ r ↦ absurd (cc (rw r at h))
        | mismatched m w _ _ _ r ↦ absurd (cc (rw r at h))
        | stale m w _ _ _ _ _ _ r ↦ absurd (cc (rw r at h))
        | refused m w _ _ _ _ _ _ _ r ↦ absurd (cc (rw r at h))
        | accepted m w latest found busy same top link r ↦ (
          solve id nonce hash w.block,
          latest,
          ok-injective (sym h ∙ ap (λ q. q.1) r) ∙ v.reward_fixed,
          unfold solve in same,
          unfold solve in refl,
          unfold solve in refl,
          unfold solve in refl,
          top,
          link,
          rw r (credit_miner-Rewarded id m w _ now pool found),
        )
      ]
