-- ===== src/Miner/Handled.antt =====
-- Every step of the client's Miner is one of its handlers, and none panics on work whose difficulty
-- is not negative.
use red_team_coin.Base.{
  ◌<◌, ◌^◌, ◌≡◌, refl, inl, inr, Bool, true, not, ◌&&◌, Option, none, some, List, [], ◌∷◌, arith,
  lt64, is_neg32, Text, I64, Bool-cases,
}
use red_team_coin.Config.{GpuConfig, is_empty}
use red_team_coin.Config.Server.{is_empty_iff}
use red_team_coin.Rpc.{WorkResponse, HeartbeatResponse, SubmissionResponse}
use red_team_coin.Client.Search.{mine_block_sound}
use red_team_coin.Gpu.{Kernel}
use red_team_coin.Gpu.Hybrid.{IsAnswer, mine_block_gpu-IsTrue, mine_block_hybrid-IsAnswer}
use red_team_coin.Miner.{
  Doing, resting, fetching, reporting, submitting, searching, Heart, waiting, asking, Miner, Effort,
  stop, search, begin_round, take_work, end_search, submit_answer, take_verdict, beat,
  take_heartbeat,
}
use red_team_coin.Miner.Steps.{
  MinerEvent, begins, gets_work, searches, submits, gets_verdict, beats, gets_heartbeat, stops,
  finish_search, mine_step, heart_step, miner_step, miner_run,
}

-- The difficulty of the work that is being searched is not negative.
abbrev pub IsReady : Doing → Type 0
IsReady (searching work) = work.difficulty < 2 ^ 31
IsReady _ = Unit

abbrev pub IsNatural : Option WorkResponse → Type 0
IsNatural none = Unit
IsNatural (some work) = work.difficulty < 2 ^ 31

-- The answers of GetWork have a difficulty that is not negative.
unfoldable pub is_natural : MinerEvent → Bool
is_natural (gets_work (some work)) = not (is_neg32 work.difficulty)
is_natural _ = true

unfoldable pub all_natural : List MinerEvent → Bool
all_natural [] = true
all_natural (e ∷ es) = is_natural e && all_natural es

-- The handler that a step runs.
pub data Handled (sha : Text → Text) (cuda open_cl : Kernel) (m m' : Miner) : Type 0 where
  idles : m' ≡ m → Handled sha cuda open_cl m m'
  did_begin : m' ≡ begin_round m → Handled sha cuda open_cl m m'
  did_take :
      (reply : Option WorkResponse)
      → IsNatural reply
      → m' ≡ take_work reply m
      → Handled sha cuda open_cl m m'
  did_search :
      (work : WorkResponse) (effort : Effort) (answer : I64 × Text × I64)
      → IsAnswer sha cuda open_cl work answer
      → m' ≡ end_search work effort answer m
      → Handled sha cuda open_cl m m'
  did_report :
      (work : WorkResponse) (nonce : I64) (hash : Text)
      → m.doing ≡ reporting work nonce hash
      → m' ≡ submit_answer work nonce hash m
      → Handled sha cuda open_cl m m'
  did_submit :
      (verdict : Option SubmissionResponse)
      → m.doing ≡ submitting
      → m' ≡ take_verdict verdict m
      → Handled sha cuda open_cl m m'
  did_beat : m' ≡ beat m → Handled sha cuda open_cl m m'
  did_hear :
      (reply : Option HeartbeatResponse)
      → m' ≡ take_heartbeat reply m
      → Handled sha cuda open_cl m m'
  did_stop : m' ≡ stop m → Handled sha cuda open_cl m m'

module _ (m : Miner) (ready : IsReady m.doing) where
  begin_round-IsReady : IsReady (begin_round m).doing
  unfolding begin_round
  begin_round-IsReady = elim (Bool-cases m.running) [
    | inr e ↦ rw (e, begin_round) tt
    | inl e ↦ elim (Bool-cases m.should_mine) [
      | inl f ↦ rw (e, f, begin_round) tt
      | inr f ↦ rw (e, f, begin_round) ready
    ]
  ]

  take_work-IsReady :
      (reply : Option WorkResponse) → IsNatural reply → IsReady (take_work reply m).doing
  unfolding take_work
  take_work-IsReady none n = tt
  take_work-IsReady (some work) n =
      elim (Bool-cases (lt64 work.block_index m.current_block_index)) [
        | inl e ↦ rw (e, take_work) tt
        | inr e ↦ rw (e, take_work) n
      ]

  end_search-IsReady :
      (work : WorkResponse) (effort : Effort) (answer : I64 × Text × I64)
      → IsReady (end_search work effort answer m).doing
  unfolding end_search
  end_search-IsReady work effort (nonce, hash, hashes) = elim (Bool-cases m.running) [
    | inl e ↦ rw (e, end_search) tt
    | inr e ↦ rw (e, end_search) tt
  ]

  submit_answer-IsReady :
      (work : WorkResponse) (nonce : I64) (hash : Text)
      → IsReady (submit_answer work nonce hash m).doing
  unfolding submit_answer
  submit_answer-IsReady work nonce hash = tt

  take_verdict-IsReady :
      (verdict : Option SubmissionResponse) → IsReady (take_verdict verdict m).doing
  unfolding take_verdict
  take_verdict-IsReady none = tt
  take_verdict-IsReady (some resp) = tt

  beat-doing : (beat m).doing ≡ m.doing
  unfolding beat
  beat-doing = elim (Bool-cases m.running) [ inl e ↦ rw (e, beat) refl | inr e ↦ rw (e, beat) refl ]

  take_heartbeat-doing :
      (reply : Option HeartbeatResponse) → (take_heartbeat reply m).doing ≡ m.doing
  unfolding take_heartbeat
  take_heartbeat-doing none = refl
  take_heartbeat-doing (some resp) = elim (Bool-cases resp.active) [
    | inl e ↦ rw (e, take_heartbeat) refl
    | inr e ↦ rw (e, take_heartbeat) refl
  ]

  stop-doing : (stop m).doing ≡ m.doing
  unfolding stop
  stop-doing = elim (Bool-cases m.running) [ inl e ↦ rw (e, stop) refl | inr e ↦ rw (e, stop) refl ]

  pub Handled-IsReady :
      {sha : Text → Text} {cuda open_cl : Kernel} (m' : Miner)
      → Handled sha cuda open_cl m m'
      → IsReady m'.doing
  Handled-IsReady m' (idles e) = rw e ready
  Handled-IsReady m' (did_begin e) = rw e begin_round-IsReady
  Handled-IsReady m' (did_take reply n e) = rw e (take_work-IsReady reply n)
  Handled-IsReady m' (did_search work effort answer _ e) =
      rw e (end_search-IsReady work effort answer)
  Handled-IsReady m' (did_report work nonce hash _ e) = rw e (submit_answer-IsReady work nonce hash)
  Handled-IsReady m' (did_submit verdict _ e) = rw e (take_verdict-IsReady verdict)
  Handled-IsReady m' (did_beat e) = rw (e, beat-doing) ready
  Handled-IsReady m' (did_hear reply e) = rw (e, take_heartbeat-doing reply) ready
  Handled-IsReady m' (did_stop e) = rw (e, stop-doing) ready

abbrev Goes : (Text → Text) → Kernel → Kernel → Miner → Option Miner → Type 0
Goes sha cuda open_cl m next = (m' : Miner) × (next ≡ some m') × Handled sha cuda open_cl m m'

module _ (sha : Text → Text) (cuda open_cl : Kernel) (gpu : GpuConfig)
    (range : gpu.nonce_range < 2 ^ 64) where
  finish_search-Goes :
      (work : WorkResponse) (effort : Effort) (m : Miner)
      → work.difficulty < 2 ^ 31
      → Goes sha cuda open_cl m (
          finish_search sha cuda open_cl gpu work effort
            (search sha cuda open_cl gpu m work effort)
            m)
  unfolding finish_search search
  finish_search-Goes work effort m small =
      elim (Bool-cases (m.has_gpu && (m.gpu_enabled && m.hybrid_mode))) [
        | inl hybrid ↦
            elim (mine_block_hybrid-IsAnswer sha cuda open_cl work small gpu.nonce_range
              gpu.cpu_start_nonce effort.race m.gpu_miner range) [
                | inl (e, _) ↦ rw (hybrid, e, finish_search) (m, refl, idles refl)
                | inr (answer, e, ok) ↦
                    rw (hybrid, e, finish_search) (_, refl, did_search work effort answer ok refl)
              ]
        | inr single ↦ elim (Bool-cases (m.has_gpu && m.gpu_enabled)) [
          | inl only ↦
              let (gm, r, e, outcome) =
                mine_block_gpu-IsTrue sha cuda open_cl work small gpu.nonce_range effort.rounds 0 0
                  m.gpu_miner range (omega arith) in
              let answer : IsAnswer sha cuda open_cl work (r.nonce, r.hash, r.hashes) =
                elim outcome [ inl (_, s) ↦ inr s | inr (_, nil) ↦ inl nil ] in
              rw (single, only, e, finish_search) (_, refl, did_search work effort _ answer refl)
          | inr cpu ↦
              let (nonce, hash, total, e, sound) =
                mine_block_sound sha work small effort.schedule in
              let empty = is_empty_iff hash in
              let answer : IsAnswer sha cuda open_cl work (nonce, hash, total) =
                elim (Bool-cases (is_empty hash)) [
                  | inl nil ↦ inl (empty.0 nil)
                  | inr full ↦ inr (inl (sound (λ nil. absurd (cc (empty.1 nil)))))
                ] in
              rw (single, cpu, e, finish_search) (_, refl, did_search work effort _ answer refl)
        ]
      ]

  mine_step-Goes :
      (e : MinerEvent) (doing : Doing) (m : Miner)
      → m.doing ≡ doing
      → IsReady doing
      → is_natural e ≡ true
      → Goes sha cuda open_cl m (mine_step sha cuda open_cl gpu e doing m)
  unfolding mine_step is_natural
  mine_step-Goes begins resting m d r n = (_, refl, did_begin refl)
  mine_step-Goes (gets_work none) fetching m d r n = (_, refl, did_take none tt refl)
  mine_step-Goes (gets_work (some work)) fetching m d r n =
      (_, refl, did_take (some work) (ground arith) refl)
  mine_step-Goes (searches effort) (searching work) m d r n = finish_search-Goes work effort m r
  mine_step-Goes submits (reporting work nonce hash) m d r n =
      (_, refl, did_report work nonce hash d refl)
  mine_step-Goes (gets_verdict verdict) submitting m d r n = (_, refl, did_submit verdict d refl)
  mine_step-Goes _ _ m d r n = (m, refl, idles refl)

  heart_step-Handled :
      (e : MinerEvent) (heart : Heart) (m : Miner)
      → Handled sha cuda open_cl m (heart_step sha cuda open_cl gpu e heart m)
  unfolding heart_step
  heart_step-Handled beats waiting m = did_beat refl
  heart_step-Handled (gets_heartbeat reply) asking m = did_hear reply refl
  heart_step-Handled _ _ m = idles refl

  pub miner_step-Goes :
      (m : Miner) (e : MinerEvent)
      → IsReady m.doing
      → is_natural e ≡ true
      → Goes sha cuda open_cl m (miner_step sha cuda open_cl gpu m e)
  unfolding miner_step
  miner_step-Goes m stops r n = (_, refl, did_stop refl)
  miner_step-Goes m beats r n = (_, refl, heart_step-Handled beats m.heart m)
  miner_step-Goes m (gets_heartbeat reply) r n =
      (_, refl, heart_step-Handled (gets_heartbeat reply) m.heart m)
  miner_step-Goes m begins r n = mine_step-Goes begins m.doing m refl r n
  miner_step-Goes m (gets_work work) r n = mine_step-Goes (gets_work work) m.doing m refl r n
  miner_step-Goes m (searches effort) r n = mine_step-Goes (searches effort) m.doing m refl r n
  miner_step-Goes m submits r n = mine_step-Goes submits m.doing m refl r n
  miner_step-Goes m (gets_verdict verdict) r n =
      mine_step-Goes (gets_verdict verdict) m.doing m refl r n

  -- What every handler keeps holds after every sequence of events.
  pub miner_run_induction {ℓ} :
      (P : Miner → Type ℓ)
      → ((m : Miner) → P m → IsReady m.doing)
      → ((m m' : Miner) → P m → Handled sha cuda open_cl m m' → P m')
      → (m : Miner) (es : List MinerEvent) → all_natural es ≡ true
      → P m
      → (m' : Miner) × (miner_run sha cuda open_cl gpu m es ≡ some m') × P m'
  unfolding miner_run all_natural
  miner_run_induction P ready keeps m [] n p = (m, refl, p)
  miner_run_induction P ready keeps m (e ∷ es) n p =
      let natural : is_natural e ≡ true = ground arith in
      let (m', ran, handled) = miner_step-Goes m e (ready m p) natural in
      rw (ran, miner_run)
        (miner_run_induction P ready keeps m' es (ground arith) (keeps m m' p handled))
