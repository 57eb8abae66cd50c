-- ===== src/Pool/Invariant.antt =====
-- What holds of the pool between any two calls.
use red_team_coin.Base.{
  ℕ, ◌||◌, lt32, ◌≤◌, ◌≡◌, inl, inr, some, List, arith, length, Text, I32, Option-cases, Bool-cases,
}
use red_team_coin.Base.Dict.{
  Dict, IsDict, AllValues, lookup, delete, insert-IsDict, delete-IsDict, AllValues-lookup,
  AllValues-insert, AllValues-delete,
}
use red_team_coin.Chain.Append.{IsValidChain}
use red_team_coin.EventLog.{Detail}
use red_team_coin.Pool.{MinerRecord, PendingWork, MiningPool, report, with_miner-keeps}
use red_team_coin.Pool.Registry.{
  Heartbeat, new_miner, set_miner, register_miner, update_heartbeat, update_heartbeat_with_gpu,
  stop_miner, pause_miner, resume_miner, delete_miner, set_cpu_throttle,
}

abbrev pub IsThrottled : MinerRecord → Type 0
IsThrottled m = m.cpu_throttle_percent ≤ 100

pub record IsSound (sha : Text → Text) (pool : MiningPool) : Type 0 where
  pub chain_valid : IsValidChain sha pool.blockchain
  pub miners_unique : IsDict pool.miners
  pub pending_unique : IsDict pool.pending_work
  pub throttled : AllValues (λ (m : MinerRecord). m.cpu_throttle_percent ≤ 100) pool.miners
  pub queue_bounded : length pool.work_queue ≤ 100
  pub reward_fixed : pool.block_reward ≡ 50

module _ {sha : Text → Text} (pool : MiningPool) (v : IsSound sha pool) where
  pub report-IsSound :
      (event message id : Text) (details : List (Text × Detail)) (now : ℕ)
      → IsSound sha (report event message id details now pool)
  unfolding report
  report-IsSound event message id details now = record {
    chain_valid = v.chain_valid;
    miners_unique = v.miners_unique;
    pending_unique = v.pending_unique;
    throttled = v.throttled;
    queue_bounded = v.queue_bounded;
    reward_fixed = v.reward_fixed;
  }

  pub set_miner-IsSound :
      (id : Text) (m : MinerRecord) → IsThrottled m → IsSound sha (set_miner id m pool)
  unfolding set_miner
  set_miner-IsSound id m t = record {
    chain_valid = v.chain_valid;
    miners_unique = insert-IsDict id m pool.miners v.miners_unique;
    pending_unique = v.pending_unique;
    throttled = AllValues-insert IsThrottled id m pool.miners t v.throttled;
    queue_bounded = v.queue_bounded;
    reward_fixed = v.reward_fixed;
  }

  pub with_pending-IsSound :
      (pending : Dict PendingWork)
      → IsDict pending
      → IsSound sha (record pool { pending_work = pending })
  with_pending-IsSound pending d = record {
    chain_valid = v.chain_valid;
    miners_unique = v.miners_unique;
    pending_unique = d;
    throttled = v.throttled;
    queue_bounded = v.queue_bounded;
    reward_fixed = v.reward_fixed;
  }

  pub looked_up-IsThrottled :
      (id : Text) {m : MinerRecord} → lookup id pool.miners ≡ some m → IsThrottled m
  looked_up-IsThrottled id e = AllValues-lookup IsThrottled id pool.miners v.throttled e

module _ {sha : Text → Text} (pool : MiningPool) (v : IsSound sha pool) where
  pub register_miner-IsSound :
      (id ip hostname actual : Text) (now : ℕ)
      → IsSound sha (register_miner id ip hostname actual now pool).0
  unfolding register_miner new_miner
  register_miner-IsSound id ip hostname actual now = elim (Option-cases (lookup id pool.miners)) [
    | inl e ↦
        rw (e, register_miner)
          (report-IsSound _ (set_miner-IsSound pool v id _ (omega arith)) _ _ _ _ _)
    | inr (m, e) ↦
        rw (e, register_miner) (set_miner-IsSound pool v id _ (looked_up-IsThrottled pool v id e))
  ]

  pub update_heartbeat-IsSound :
      (id : Text) (rate cpu total time now : ℕ)
      → IsSound sha (update_heartbeat id rate cpu total time now pool).0
  unfolding update_heartbeat
  update_heartbeat-IsSound id rate cpu total time now =
      with_miner-keeps (IsSound sha) id _ pool _ v
        λ m e. set_miner-IsSound pool v id _ (looked_up-IsThrottled pool v id e)

  pub update_heartbeat_with_gpu-IsSound :
      (id : Text) (beat : Heartbeat) (now : ℕ)
      → IsSound sha (update_heartbeat_with_gpu id beat now pool).0
  unfolding update_heartbeat_with_gpu
  update_heartbeat_with_gpu-IsSound id beat now =
      with_miner-keeps (IsSound sha) id _ pool _ v
        λ m e. set_miner-IsSound pool v id _ (looked_up-IsThrottled pool v id e)

  pub stop_miner-IsSound : (id : Text) → IsSound sha (stop_miner id pool).0
  unfolding stop_miner
  stop_miner-IsSound id = with_miner-keeps (IsSound sha) id _ pool _ v λ m e.
      with_pending-IsSound _ (set_miner-IsSound pool v id _ (looked_up-IsThrottled pool v id e)) _
        (delete-IsDict id pool.pending_work v.pending_unique)

  pub pause_miner-IsSound : (id : Text) (now : ℕ) → IsSound sha (pause_miner id now pool).0
  unfolding pause_miner
  pause_miner-IsSound id now = with_miner-keeps (IsSound sha) id _ pool _ v λ m e.
      report-IsSound _ (set_miner-IsSound pool v id _ (looked_up-IsThrottled pool v id e)) _ _ _ _ _

  pub resume_miner-IsSound : (id : Text) (now : ℕ) → IsSound sha (resume_miner id now pool).0
  unfolding resume_miner
  resume_miner-IsSound id now = with_miner-keeps (IsSound sha) id _ pool _ v λ m e.
      report-IsSound _ (set_miner-IsSound pool v id _ (looked_up-IsThrottled pool v id e)) _ _ _ _ _

  pub drop_miner-IsSound :
      (id : Text) → IsSound sha (record pool { miners = delete id pool.miners })
  drop_miner-IsSound id = record {
    chain_valid = v.chain_valid;
    miners_unique = delete-IsDict id pool.miners v.miners_unique;
    pending_unique = v.pending_unique;
    throttled = AllValues-delete IsThrottled id pool.miners v.throttled;
    queue_bounded = v.queue_bounded;
    reward_fixed = v.reward_fixed;
  }

module _ {sha : Text → Text} (pool : MiningPool) (v : IsSound sha pool) where
  pub delete_miner-IsSound : (id : Text) (now : ℕ) → IsSound sha (delete_miner id now pool).0
  unfolding delete_miner
  delete_miner-IsSound id now = with_miner-keeps (IsSound sha) id _ pool _ v λ m e.
      drop_miner-IsSound _
        (report-IsSound _
          (with_pending-IsSound pool v _ (delete-IsDict id pool.pending_work v.pending_unique)) _ _
          _ _ _)
        id

  pub set_cpu_throttle-IsSound :
      (id : Text) (percent : I32) (now : ℕ) → IsSound sha (set_cpu_throttle id percent now pool).0
  unfolding set_cpu_throttle
  set_cpu_throttle-IsSound id percent now = with_miner-keeps (IsSound sha) id _ pool _ v λ m e.
      elim (Bool-cases (lt32 percent 0 || lt32 100 percent)) [
        | inl bad ↦ rw bad v
        | inr good ↦
            rw good (report-IsSound _ (set_miner-IsSound pool v id _ (ground arith)) _ _ _ _ _)
      ]
