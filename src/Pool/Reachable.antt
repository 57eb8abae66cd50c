-- ===== src/Pool/Reachable.antt =====
-- Every sequence of calls keeps the pool sound.
use red_team_coin.Base.{
  ℕ, refl, inl, inr, List, [], ◌∷◌, arith, length, length-append, ltb, Text, I32, I64, Bool-cases,
}
use red_team_coin.Chain.{Block, new_blockchain}
use red_team_coin.Chain.Links.{HexDigest}
use red_team_coin.Chain.Append.{new_blockchain-IsValidChain}
use red_team_coin.Pool.{MiningPool, new_mining_pool, set_logger, shutdown}
use red_team_coin.Pool.Work.{queue_capacity, offer_work}
use red_team_coin.Pool.System.{
  System, Generator, Call, registers, gets_work, submits, beats, beats_with_gpu, stops, pauses,
  resumes, deletes, throttles, logs_to, shuts_down, generator_ticks, generator_sends,
  generator_quits, waiting, holding, stopped, send_generated, step, run, run_induction,
  start_system,
}
use red_team_coin.Pool.Invariant.{
  IsSound, register_miner-IsSound, update_heartbeat-IsSound, update_heartbeat_with_gpu-IsSound,
  stop_miner-IsSound, pause_miner-IsSound, resume_miner-IsSound, delete_miner-IsSound,
  set_cpu_throttle-IsSound,
}
use red_team_coin.Pool.Returns.{
  with_queue-IsSound, set_logger-IsSound, shutdown-IsSound, get_work-Returns, submit_work-Returns,
}

module _ {sha : Text → Text} (hex : HexDigest sha) where
  offer_work-IsSound :
      (b : Block) (pool : MiningPool) → IsSound sha pool → IsSound sha (offer_work b pool)
  unfolding offer_work
  offer_work-IsSound b pool v = elim (Bool-cases (ltb (length pool.work_queue) queue_capacity)) [
    | inl room ↦
        rw room
          (with_queue-IsSound pool v _ (ground (arith, length-append pool.work_queue (b ∷ []))))
    | inr full ↦ rw full v
  ]

  send_generated-IsSound :
      (pool : MiningPool) (g : Generator)
      → IsSound sha pool
      → IsSound sha (send_generated pool g).pool
  unfolding send_generated
  send_generated-IsSound pool waiting v = v
  send_generated-IsSound pool (holding b) v = offer_work-IsSound b pool v
  send_generated-IsSound pool stopped v = v

  pub step-IsSound :
      (s : System) (c : ℕ × Call) → IsSound sha s.pool → IsSound sha (step sha s c).pool
  unfolding step set_logger shutdown
  step-IsSound s (now, registers id ip hostname actual) v =
      register_miner-IsSound s.pool v id ip hostname actual now
  step-IsSound s (now, gets_work id) v = (get_work-Returns s.pool v id now).0
  step-IsSound s (now, submits id index nonce hash) v =
      (submit_work-Returns hex s.pool v id index nonce hash now).0
  step-IsSound s (now, beats id rate cpu total time) v =
      update_heartbeat-IsSound s.pool v id rate cpu total time now
  step-IsSound s (now, beats_with_gpu id beat) v =
      update_heartbeat_with_gpu-IsSound s.pool v id beat now
  step-IsSound s (now, stops id) v = stop_miner-IsSound s.pool v id
  step-IsSound s (now, pauses id) v = pause_miner-IsSound s.pool v id now
  step-IsSound s (now, resumes id) v = resume_miner-IsSound s.pool v id now
  step-IsSound s (now, deletes id) v = delete_miner-IsSound s.pool v id now
  step-IsSound s (now, throttles id percent) v = set_cpu_throttle-IsSound s.pool v id percent now
  step-IsSound s (now, logs_to logger) v = set_logger-IsSound s.pool v logger
  step-IsSound s (now, shuts_down) v = shutdown-IsSound s.pool v
  step-IsSound s (now, generator_ticks) v = v
  step-IsSound s (now, generator_sends) v = send_generated-IsSound s.pool s.generator v
  step-IsSound s (now, generator_quits) v = v

-- A new pool on a new chain is sound.
pub start-IsSound :
    (sha : Text → Text) (difficulty : I32) (genesis_time : I64)
    → IsSound sha (start_system (new_mining_pool (new_blockchain sha difficulty genesis_time))).pool
unfolding start_system new_mining_pool
start-IsSound sha difficulty genesis_time = record {
  chain_valid = new_blockchain-IsValidChain sha difficulty genesis_time;
  miners_unique = tt;
  pending_unique = tt;
  throttled = tt;
  queue_bounded = omega arith;
  reward_fixed = refl;
}

module _ {sha : Text → Text} (hex : HexDigest sha) where
  -- A server that starts with a new chain and a new pool is sound after every sequence of calls, at
  -- any times and with any arguments: the chain is valid with a difficulty between 1 and 10, no
  -- miner and no pending work stands twice in its map, every CPU throttle is 100 at most, the queue
  -- holds 100 blocks at most, and the reward is 50.
  pub run-IsSound :
      (difficulty : I32) (genesis_time : I64) (calls : List (ℕ × Call))
      → IsSound sha
          (run sha
            (start_system (new_mining_pool (new_blockchain sha difficulty genesis_time)))
            calls).pool
  run-IsSound difficulty genesis_time calls =
      run_induction sha (λ s. IsSound sha s.pool) (step-IsSound hex) _ calls
        (start-IsSound sha difficulty genesis_time)
