-- ===== src/Pool/Traceable.antt =====
-- Every block of work in the system is anchored in the chain, after any calls.
use red_team_coin.Base.{
  ℕ, ◌≡◌, refl, inl, inr, Bool, true, false, ◌||◌, List, lt32, Text, I32, I64, Option-cases,
  Bool-cases,
}
use red_team_coin.Base.Dict.{AllValues-delete}
use red_team_coin.Chain.{Blockchain, get_latest_block, new_blockchain}
use red_team_coin.Chain.Links.{HexDigest}
use red_team_coin.Pool.{MiningPool, report, with_miner-keeps, new_mining_pool, set_logger, shutdown}
use red_team_coin.Pool.Registry.{
  set_miner, update_heartbeat, update_heartbeat_with_gpu, stop_miner, pause_miner, resume_miner,
  delete_miner, set_cpu_throttle,
}
use red_team_coin.Pool.Work.{produce_work}
use red_team_coin.Pool.System.{
  System, Generator, Call, registers, gets_work, submits, beats, beats_with_gpu, stops, pauses,
  resumes, deletes, throttles, logs_to, shuts_down, generator_ticks, generator_sends,
  generator_quits, waiting, holding, stopped, start_system, tick_generator, send_generated,
  quit_generator, step, run, run_induction,
}
use red_team_coin.Pool.Invariant.{IsSound}
use red_team_coin.Pool.Reachable.{step-IsSound, start-IsSound}
use red_team_coin.Pool.Growth.{Grows, step-Grows}
use red_team_coin.Pool.Anchors.{
  Anchored, IsAnchored, Anchored-Grows, new_work_block-Anchored, register_miner-IsAnchored,
  offer_work-IsAnchored, get_work-IsAnchored, submit_work-IsAnchored,
}

-- Of the block that the generator holds.
abbrev HoldsAnchored : Blockchain → Generator → Type 0
HoldsAnchored bc waiting = Unit
HoldsAnchored bc (holding b) = Anchored bc b
HoldsAnchored bc stopped = Unit

pub record IsTraceable (sha : Text → Text) (s : System) : Type 0 where
  pub sound : IsSound sha s.pool
  pub anchored : IsAnchored s.pool
  pub held : HoldsAnchored s.pool.blockchain s.generator

HoldsAnchored-Grows :
    {c d : Blockchain} (g : Generator) → Grows c d → HoldsAnchored c g → HoldsAnchored d g
HoldsAnchored-Grows waiting g h = tt
HoldsAnchored-Grows (holding b) g h = Anchored-Grows g h
HoldsAnchored-Grows stopped g h = tt

same-IsAnchored :
    (p : MiningPool)
    → IsAnchored p
    → (q : MiningPool) → q.blockchain ≡ p.blockchain
    → q.work_queue ≡ p.work_queue
    → q.pending_work ≡ p.pending_work
    → IsAnchored q
same-IsAnchored p a q c w d = record {
  queue_anchored = rw (c, w) a.queue_anchored;
  pending_anchored = rw (c, d) a.pending_anchored;
}

set_cpu_throttle-IsAnchored :
    (p : MiningPool)
    → IsAnchored p
    → (id : Text) (percent : I32) (now : ℕ) → IsAnchored (set_cpu_throttle id percent now p).0
unfolding set_cpu_throttle report set_miner
set_cpu_throttle-IsAnchored p a id percent now = with_miner-keeps IsAnchored id _ p _ a λ m e.
    elim (Bool-cases (lt32 percent 0 || lt32 100 percent)) [
      | inl bad ↦ rw bad a
      | inr good ↦ rw good (same-IsAnchored p a _ refl refl refl)
    ]

tick_generator-Anchored :
    (now : ℕ) (p : MiningPool) (g : Generator)
    → HoldsAnchored p.blockchain g
    → HoldsAnchored p.blockchain (tick_generator now p g)
unfolding tick_generator produce_work
tick_generator-Anchored now p waiting h = elim (Option-cases (get_latest_block p.blockchain)) [
  | inl e ↦ rw (e, tick_generator, produce_work) tt
  | inr (latest, e) ↦
      rw (e, tick_generator, produce_work) (new_work_block-Anchored p.blockchain latest now e)
]
tick_generator-Anchored now p (holding b) h = h
tick_generator-Anchored now p stopped h = tt

quit_generator-Anchored :
    (bc : Blockchain) (cancelled : Bool) (g : Generator)
    → HoldsAnchored bc g
    → HoldsAnchored bc (quit_generator cancelled g)
unfolding quit_generator
quit_generator-Anchored bc true waiting h = tt
quit_generator-Anchored bc false waiting h = tt
quit_generator-Anchored bc true (holding b) h = h
quit_generator-Anchored bc false (holding b) h = h
quit_generator-Anchored bc true stopped h = tt
quit_generator-Anchored bc false stopped h = tt

send_generated-IsAnchored :
    (p : MiningPool) (g : Generator)
    → IsAnchored p
    → HoldsAnchored p.blockchain g
    → IsAnchored (send_generated p g).pool
unfolding send_generated
send_generated-IsAnchored p waiting a h = a
send_generated-IsAnchored p (holding b) a h = offer_work-IsAnchored p a b h
send_generated-IsAnchored p stopped a h = a

send_generated-Anchored :
    (p : MiningPool) (g : Generator)
    → HoldsAnchored (send_generated p g).pool.blockchain (send_generated p g).generator
unfolding send_generated
send_generated-Anchored p waiting = tt
send_generated-Anchored p (holding b) = tt
send_generated-Anchored p stopped = tt

module _ {sha : Text → Text} (hex : HexDigest sha) where
  step-IsAnchored : (s : System) (c : ℕ × Call) → IsTraceable sha s → IsAnchored (step sha s c).pool
  unfolding step update_heartbeat update_heartbeat_with_gpu stop_miner pause_miner resume_miner
      delete_miner set_logger shutdown set_miner report
  step-IsAnchored s (now, registers id ip hostname actual) t =
      register_miner-IsAnchored s.pool t.anchored id ip hostname actual now
  step-IsAnchored s (now, gets_work id) t = get_work-IsAnchored s.pool t.anchored t.sound id now
  step-IsAnchored s (now, submits id index nonce hash) t =
      submit_work-IsAnchored s.pool t.anchored hex t.sound id index nonce hash now
  step-IsAnchored s (now, beats id rate cpu total time) t =
      with_miner-keeps IsAnchored id _ s.pool _ t.anchored
        (λ m e. same-IsAnchored s.pool t.anchored _ refl refl refl)
  step-IsAnchored s (now, beats_with_gpu id beat) t =
      with_miner-keeps IsAnchored id _ s.pool _ t.anchored
        (λ m e. same-IsAnchored s.pool t.anchored _ refl refl refl)
  step-IsAnchored s (now, stops id) t = with_miner-keeps IsAnchored id _ s.pool _ t.anchored (λ m e.
      record {
        queue_anchored = t.anchored.queue_anchored;
        pending_anchored = AllValues-delete _ id s.pool.pending_work t.anchored.pending_anchored;
      })
  step-IsAnchored s (now, pauses id) t =
      with_miner-keeps IsAnchored id _ s.pool _ t.anchored
        (λ m e. same-IsAnchored s.pool t.anchored _ refl refl refl)
  step-IsAnchored s (now, resumes id) t =
      with_miner-keeps IsAnchored id _ s.pool _ t.anchored
        (λ m e. same-IsAnchored s.pool t.anchored _ refl refl refl)
  step-IsAnchored s (now, deletes id) t =
      with_miner-keeps IsAnchored id _ s.pool _ t.anchored (λ m e. record {
        queue_anchored = t.anchored.queue_anchored;
        pending_anchored = AllValues-delete _ id s.pool.pending_work t.anchored.pending_anchored;
      })
  step-IsAnchored s (now, throttles id percent) t =
      set_cpu_throttle-IsAnchored s.pool t.anchored id percent now
  step-IsAnchored s (now, logs_to logger) t = same-IsAnchored s.pool t.anchored _ refl refl refl
  step-IsAnchored s (now, shuts_down) t = same-IsAnchored s.pool t.anchored _ refl refl refl
  step-IsAnchored s (now, generator_ticks) t = t.anchored
  step-IsAnchored s (now, generator_sends) t =
      send_generated-IsAnchored s.pool s.generator t.anchored t.held
  step-IsAnchored s (now, generator_quits) t = t.anchored

  step-held :
      (s : System) (c : ℕ × Call)
      → IsTraceable sha s
      → HoldsAnchored (step sha s c).pool.blockchain (step sha s c).generator
  unfolding step
  step-held s (now, generator_ticks) t = tick_generator-Anchored now s.pool s.generator t.held
  step-held s (now, generator_sends) t = send_generated-Anchored s.pool s.generator
  step-held s (now, generator_quits) t =
      quit_generator-Anchored s.pool.blockchain s.pool.cancelled s.generator t.held
  step-held s c t = HoldsAnchored-Grows s.generator (step-Grows hex s c t.sound) t.held

  step-IsTraceable :
      (s : System) (c : ℕ × Call) → IsTraceable sha s → IsTraceable sha (step sha s c)
  step-IsTraceable s c t = record {
    sound = step-IsSound hex s c t.sound;
    anchored = step-IsAnchored s c t;
    held = step-held s c t;
  }

  -- In a server that starts with a new chain and a new pool, whatever calls come: every block that
  -- is queued, pending, or held by the generator has the index after that of some block of the
  -- chain, and names the hash of that block.
  pub run-IsTraceable :
      (difficulty : I32) (genesis_time : I64) (calls : List (ℕ × Call))
      → IsTraceable sha (
          run sha
            (start_system (new_mining_pool (new_blockchain sha difficulty genesis_time)))
            calls)
  run-IsTraceable difficulty genesis_time calls =
      run_induction sha (IsTraceable sha) step-IsTraceable _ calls (
        unfold start_system new_mining_pool in
        record {
          sound = start-IsSound sha difficulty genesis_time;
          anchored = record { queue_anchored = tt; pending_anchored = tt };
          held = tt;
        })
