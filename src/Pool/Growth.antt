-- ===== src/Pool/Growth.antt =====
-- No call removes or changes a block of the chain.
use red_team_coin.Base.{
  ℕ, ◌≡◌, refl, sym, ap, ◌∙◌, subst, inl, inr, ◌||◌, List, [], ◌∷◌, ◌++◌, append_assoc, append-nil,
  ltb, lt32, length, Text, I32, I64, Option-cases, Bool-cases,
}
use red_team_coin.Base.Dict.{lookup}
use red_team_coin.Chain.{Block, Blockchain}
use red_team_coin.Chain.Links.{HexDigest}
use red_team_coin.Chain.Append.{extend}
use red_team_coin.Pool.{MiningPool, report, with_miner-keeps, set_logger, shutdown}
use red_team_coin.Pool.Registry.{
  set_miner, register_miner, update_heartbeat, update_heartbeat_with_gpu, stop_miner, pause_miner,
  resume_miner, delete_miner, set_cpu_throttle,
}
use red_team_coin.Pool.Work.{
  queue_capacity, set_pending, get_work, submit_work, offer_work, credit_miner, solve,
}
use red_team_coin.Pool.System.{
  System, Generator, Call, registers, gets_work, submits, beats, beats_with_gpu, stops, pauses,
  resumes, deletes, throttles, logs_to, shuts_down, generator_ticks, generator_sends,
  generator_quits, waiting, holding, stopped, send_generated, step, run,
}
use red_team_coin.Pool.Invariant.{IsSound}
use red_team_coin.Pool.Reachable.{step-IsSound}
use red_team_coin.Pool.Assignment.{unregistered, reused, queued, generated, get_work_cases}
use red_team_coin.Pool.Submission.{
  Submission, idle, mismatched, stale, refused, accepted, submit_work_cases,
}

-- `d` has the blocks of `c`, and then others.
pub record Grows (c d : Blockchain) : Type 0 where
  pub added : List Block
  pub appended : d.blocks ≡ c.blocks ++ added
  pub same_difficulty : d.difficulty ≡ c.difficulty

pub Grows-refl : (c : Blockchain) → Grows c c
Grows-refl c = record { added = []; appended = sym (append-nil c.blocks); same_difficulty = refl }

pub Grows-trans : {b c d : Blockchain} → Grows b c → Grows c d → Grows b d
Grows-trans {b} {c} {d} g h = record {
  added = g.added ++ h.added;
  appended = h.appended ∙ ap (λ s. s ++ h.added) g.appended ∙ append_assoc b.blocks g.added h.added;
  same_difficulty = h.same_difficulty ∙ g.same_difficulty;
}

pub Grows-extend : (c : Blockchain) (b : Block) → Grows c (extend c b)
Grows-extend c b = record { added = b ∷ []; appended = refl; same_difficulty = refl }

abbrev SameChain : MiningPool → MiningPool → Type 0
SameChain p q = q.blockchain ≡ p.blockchain

Grows-of_eq : (c : Blockchain) {d : Blockchain} → d ≡ c → Grows c d
Grows-of_eq c e = subst (Grows c) (sym e) (Grows-refl c)

module _ (p : MiningPool) where
  register_miner-SameChain :
      (id ip hostname actual : Text) (now : ℕ)
      → SameChain p (register_miner id ip hostname actual now p).0
  unfolding register_miner report set_miner
  register_miner-SameChain id ip hostname actual now = elim (Option-cases (lookup id p.miners)) [
    | inl e ↦ rw (e, register_miner)
    | inr (m, e) ↦ rw (e, register_miner)
  ]

  set_cpu_throttle-SameChain :
      (id : Text) (percent : I32) (now : ℕ) → SameChain p (set_cpu_throttle id percent now p).0
  unfolding set_cpu_throttle report set_miner
  set_cpu_throttle-SameChain id percent now = with_miner-keeps (SameChain p) id _ p _ refl λ m e.
      elim (Bool-cases (lt32 percent 0 || lt32 100 percent)) [
        | inl bad ↦ rw bad
        | inr good ↦ rw good
      ]

  send_generated-SameChain : (g : Generator) → SameChain p (send_generated p g).pool
  unfolding send_generated offer_work
  send_generated-SameChain waiting = refl
  send_generated-SameChain stopped = refl
  send_generated-SameChain (holding b) =
      elim (Bool-cases (ltb (length p.work_queue) queue_capacity)) [
        | inl room ↦ rw room
        | inr full ↦ rw full
      ]

module _ {sha : Text → Text} (hex : HexDigest sha) (p : MiningPool) (v : IsSound sha p) where
  get_work-SameChain : (id : Text) (now : ℕ) → SameChain p (get_work id now p).0
  unfolding set_pending set_miner
  get_work-SameChain id now = elim (get_work_cases p v id now) [
    | unregistered _ r ↦ rw r
    | reused _ _ _ _ _ _ _ _ r ↦ rw r
    | queued _ _ _ _ _ _ _ r ↦ rw r
    | generated _ _ _ _ _ _ _ r ↦ rw r
  ]

  submit_work-Grows :
      (id : Text) (index nonce : I64) (hash : Text) (now : ℕ)
      → Grows p.blockchain (submit_work sha id index nonce hash now p).0.blockchain
  unfolding credit_miner set_miner report
  submit_work-Grows id index nonce hash now =
      elim (submit_work_cases hex p v id index nonce hash now) [
        | Submission.unregistered _ r ↦ rw r (Grows-refl p.blockchain)
        | idle _ _ _ r ↦ rw r (Grows-refl p.blockchain)
        | mismatched _ _ _ _ _ r ↦ rw r (Grows-refl p.blockchain)
        | stale _ _ _ _ _ _ _ _ r ↦ rw r (Grows-refl p.blockchain)
        | refused _ _ _ _ _ _ _ _ _ r ↦ rw r (Grows-refl p.blockchain)
        | accepted _ w _ _ _ _ _ _ r ↦
            rw r (Grows-extend p.blockchain (solve id nonce hash w.block))
      ]

module _ {sha : Text → Text} (hex : HexDigest sha) where
  pub step-Grows :
      (s : System) (c : ℕ × Call)
      → IsSound sha s.pool
      → Grows s.pool.blockchain (step sha s c).pool.blockchain
  unfolding step update_heartbeat update_heartbeat_with_gpu stop_miner pause_miner resume_miner
      delete_miner set_logger shutdown set_miner report
  step-Grows s (now, registers id ip hostname actual) v =
      Grows-of_eq s.pool.blockchain (register_miner-SameChain s.pool id ip hostname actual now)
  step-Grows s (now, gets_work id) v =
      Grows-of_eq s.pool.blockchain (get_work-SameChain hex s.pool v id now)
  step-Grows s (now, submits id index nonce hash) v =
      submit_work-Grows hex s.pool v id index nonce hash now
  step-Grows s (now, beats id rate cpu total time) v =
      Grows-of_eq s.pool.blockchain
        (with_miner-keeps (SameChain s.pool) id _ s.pool _ refl (λ m e. refl))
  step-Grows s (now, beats_with_gpu id beat) v =
      Grows-of_eq s.pool.blockchain
        (with_miner-keeps (SameChain s.pool) id _ s.pool _ refl (λ m e. refl))
  step-Grows s (now, stops id) v =
      Grows-of_eq s.pool.blockchain
        (with_miner-keeps (SameChain s.pool) id _ s.pool _ refl (λ m e. refl))
  step-Grows s (now, pauses id) v =
      Grows-of_eq s.pool.blockchain
        (with_miner-keeps (SameChain s.pool) id _ s.pool _ refl (λ m e. refl))
  step-Grows s (now, resumes id) v =
      Grows-of_eq s.pool.blockchain
        (with_miner-keeps (SameChain s.pool) id _ s.pool _ refl (λ m e. refl))
  step-Grows s (now, deletes id) v =
      Grows-of_eq s.pool.blockchain
        (with_miner-keeps (SameChain s.pool) id _ s.pool _ refl (λ m e. refl))
  step-Grows s (now, throttles id percent) v =
      Grows-of_eq s.pool.blockchain (set_cpu_throttle-SameChain s.pool id percent now)
  step-Grows s (now, logs_to logger) v = Grows-refl s.pool.blockchain
  step-Grows s (now, shuts_down) v = Grows-refl s.pool.blockchain
  step-Grows s (now, generator_ticks) v = Grows-refl s.pool.blockchain
  step-Grows s (now, generator_sends) v =
      Grows-of_eq s.pool.blockchain (send_generated-SameChain s.pool s.generator)
  step-Grows s (now, generator_quits) v = Grows-refl s.pool.blockchain

  -- From a sound pool, no sequence of calls removes or changes a block of the chain, or changes the
  -- difficulty: the chain after it is the chain before it with blocks appended.
  pub run-Grows :
      (s : System) (calls : List (ℕ × Call))
      → IsSound sha s.pool
      → Grows s.pool.blockchain (run sha s calls).pool.blockchain
  unfolding run
  run-Grows s [] v = Grows-refl s.pool.blockchain
  run-Grows s (c ∷ cs) v =
      Grows-trans (step-Grows s c v) (run-Grows (step sha s c) cs (step-IsSound hex s c v))
