-- ===== src/Miner/Steps.antt =====
-- The two goroutines of the client's Miner and its end, in any order of their steps.
use red_team_coin.Base.{Option, none, some, List, [], ◌∷◌, Text, I64}
use red_team_coin.Config.{GpuConfig}
use red_team_coin.Rpc.{WorkResponse, SubmissionResponse, HeartbeatResponse}
use red_team_coin.Gpu.{Ran, returns, panics, runs_out, Kernel}
use red_team_coin.Miner.{
  Doing, resting, fetching, reporting, submitting, searching, Heart, waiting, asking, Miner, Effort,
  stop, search, begin_round, take_work, end_search, submit_answer, take_verdict, beat,
  take_heartbeat,
}

pub data MinerEvent : Type 0 where
  begins : MinerEvent
  gets_work : Option WorkResponse → MinerEvent
  searches : Effort → MinerEvent
  submits : MinerEvent
  gets_verdict : Option SubmissionResponse → MinerEvent
  beats : MinerEvent
  gets_heartbeat : Option HeartbeatResponse → MinerEvent
  stops : MinerEvent

module _ (sha : Text → Text) (cuda open_cl : Kernel) (gpu : GpuConfig) where
  -- What a search leaves: `none` is a panic of the process.
  unfoldable pub finish_search :
      WorkResponse → Effort → Ran (Option (I64 × Text × I64)) → Miner → Option Miner
  finish_search work effort (returns (some answer)) m = some (end_search work effort answer m)
  finish_search work effort (returns none) m = some m
  finish_search work effort panics m = none
  finish_search work effort runs_out m = none

  unfoldable pub mine_step : MinerEvent → Doing → Miner → Option Miner
  mine_step begins resting m = some (begin_round m)
  mine_step (gets_work work) fetching m = some (take_work work m)
  mine_step (searches effort) (searching work) m =
      finish_search work effort (search sha cuda open_cl gpu m work effort) m
  mine_step submits (reporting work nonce hash) m = some (submit_answer work nonce hash m)
  mine_step (gets_verdict verdict) submitting m = some (take_verdict verdict m)
  mine_step _ _ m = some m

  unfoldable pub heart_step : MinerEvent → Heart → Miner → Miner
  heart_step beats waiting m = beat m
  heart_step (gets_heartbeat reply) asking m = take_heartbeat reply m
  heart_step _ _ m = m

  unfoldable pub miner_step : Miner → MinerEvent → Option Miner
  miner_step m stops = some (stop m)
  miner_step m beats = some (heart_step beats m.heart m)
  miner_step m (gets_heartbeat reply) = some (heart_step (gets_heartbeat reply) m.heart m)
  miner_step m e = mine_step e m.doing m

  unfoldable pub miner_run : Miner → List MinerEvent → Option Miner
  miner_run m [] = some m
  miner_run m (e ∷ es) = elim (miner_step m e) [ none ↦ none | some m' ↦ miner_run m' es ]
