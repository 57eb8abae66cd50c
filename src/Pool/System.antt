-- ===== src/Pool/System.antt =====
-- The pool with its work generator, under any sequence of calls: every method of server/pool.go
-- holds the pool's lock, so calls come one after another. The generator makes a block and sends it
-- in two steps, between which other calls may come.
use red_team_coin.Base.{ℕ, Bool, true, false, List, [], ◌∷◌, Text, I32, I64}
use red_team_coin.Outcome.{ok, err, panic}
use red_team_coin.Chain.{Block}
use red_team_coin.EventLog.{PoolLogger}
use red_team_coin.Pool.{Float64, MiningPool, set_logger, shutdown}
use red_team_coin.Pool.Registry.{
  Heartbeat, register_miner, update_heartbeat, update_heartbeat_with_gpu, stop_miner, pause_miner,
  resume_miner, delete_miner, set_cpu_throttle,
}
use red_team_coin.Pool.Work.{get_work, submit_work, produce_work, offer_work}

pub data Generator : Type 0 where
  waiting : Generator
  holding : Block → Generator
  stopped : Generator

pub record System : Type 0 where
  pub pool : MiningPool
  pub generator : Generator

pub data Call : Type 0 where
  registers : Text → Text → Text → Text → Call
  gets_work : Text → Call
  submits : Text → I64 → I64 → Text → Call
  beats : Text → I64 → Float64 → I64 → I64 → Call
  beats_with_gpu : Text → Heartbeat → Call
  stops : Text → Call
  pauses : Text → Call
  resumes : Text → Call
  deletes : Text → Call
  throttles : Text → I32 → Call
  logs_to : PoolLogger → Call
  shuts_down : Call
  generator_ticks : Call
  generator_sends : Call
  generator_quits : Call

unfoldable pub start_system : MiningPool → System
start_system pool = record { pool = pool; generator = waiting }

-- A tick reaches the generator only while it waits.
unfoldable pub tick_generator : ℕ → MiningPool → Generator → Generator
tick_generator now pool waiting = elim (produce_work now pool) [
  | ok block ↦ holding block
  | err _ ↦ waiting
  | panic ↦ stopped
]
tick_generator now pool (holding block) = holding block
tick_generator now pool stopped = stopped

unfoldable pub send_generated : MiningPool → Generator → System
send_generated pool (holding block) = record { pool = offer_work block pool; generator = waiting }
send_generated pool waiting = record { pool = pool; generator = waiting }
send_generated pool stopped = record { pool = pool; generator = stopped }

-- The case `<-ctx.Done()`.
unfoldable pub quit_generator : Bool → Generator → Generator
quit_generator true waiting = stopped
quit_generator false waiting = waiting
quit_generator cancelled (holding block) = holding block
quit_generator cancelled stopped = stopped

module _ (sha : Text → Text) where
  unfoldable pub step : System → ℕ × Call → System
  step s (now, registers id ip hostname actual) = record s {
    pool = (register_miner id ip hostname actual now s.pool).0;
  }
  step s (now, gets_work id) = record s { pool = (get_work id now s.pool).0 }
  step s (now, submits id index nonce hash) = record s {
    pool = (submit_work sha id index nonce hash now s.pool).0;
  }
  step s (now, beats id rate cpu total time) = record s {
    pool = (update_heartbeat id rate cpu total time now s.pool).0;
  }
  step s (now, beats_with_gpu id beat) = record s {
    pool = (update_heartbeat_with_gpu id beat now s.pool).0;
  }
  step s (now, stops id) = record s { pool = (stop_miner id s.pool).0 }
  step s (now, pauses id) = record s { pool = (pause_miner id now s.pool).0 }
  step s (now, resumes id) = record s { pool = (resume_miner id now s.pool).0 }
  step s (now, deletes id) = record s { pool = (delete_miner id now s.pool).0 }
  step s (now, throttles id percent) = record s {
    pool = (set_cpu_throttle id percent now s.pool).0;
  }
  step s (now, logs_to logger) = record s { pool = set_logger logger s.pool }
  step s (now, shuts_down) = record s { pool = shutdown s.pool }
  step s (now, generator_ticks) = record s { generator = tick_generator now s.pool s.generator }
  step s (now, generator_sends) = send_generated s.pool s.generator
  step s (now, generator_quits) = record s {
    generator = quit_generator s.pool.cancelled s.generator;
  }

  unfoldable pub run : System → List (ℕ × Call) → System
  run s [] = s
  run s (c ∷ cs) = run (step s c) cs

  -- A predicate that every call keeps holds after any calls.
  pub run_induction {ℓ} :
      (P : System → Type ℓ)
      → ((s : System) (c : ℕ × Call) → P s → P (step s c))
      → (s : System) (cs : List (ℕ × Call)) → P s
      → P (run s cs)
  unfolding run
  run_induction P keep s [] h = h
  run_induction P keep s (c ∷ cs) h = run_induction P keep (step s c) cs (keep s c h)
