-- ===== src/Miner/Honest.antt =====
-- What holds of the client's Miner at all times.
use red_team_coin.Base.{
  ℕ, ◌+◌, ◌^◌, ◌<◌, ◌≤◌, ◌≡◌, refl, sym, ◌∙◌, subst, ◌⊎◌, true, false, ◌&&◌, not, Option, none,
  some, List, [], ◌∷◌, ◌++◌, length, length-append, arith, ltb, lt64, Text, I64, if_intro,
}
use red_team_coin.Config.{GpuConfig, MiningConfig}
use red_team_coin.Rpc.{WorkResponse, HeartbeatResponse, SubmissionResponse}
use red_team_coin.Gpu.{Kernel, GpuMiner}
use red_team_coin.Gpu.Solutions.{IsFound}
use red_team_coin.Gpu.Hybrid.{IsAnswer}
use red_team_coin.Miner.{
  Submission, Doing, resting, fetching, reporting, submitting, ended, searching, Miner, Effort,
  new_miner, start, stop, begin_round, take_work, end_search, submit_answer, take_verdict, beat,
  take_heartbeat,
}
use red_team_coin.Miner.Steps.{MinerEvent, miner_run}
use red_team_coin.Miner.Handled.{
  IsReady, all_natural, Handled, idles, did_begin, did_take, did_search, did_report, did_submit,
  did_beat, did_hear, did_stop, Handled-IsReady, miner_run_induction,
}

-- An empty hash, a solution, or what a kernel answered for the work.
abbrev pub IsEmptyOrFound : (Text → Text) → Kernel → Kernel → WorkResponse → I64 → Text → Type 0
IsEmptyOrFound sha cuda open_cl work nonce hash =
    (hash ≡ []) ⊎ IsFound sha cuda open_cl work nonce hash

-- A submission is for the block of its work, and its hash is empty or found for that work.
abbrev pub IsTrueTo : (Text → Text) → Kernel → Kernel → Submission → Type 0
IsTrueTo sha cuda open_cl s =
    (s.block_index ≡ s.work.block_index) × IsEmptyOrFound sha cuda open_cl s.work s.nonce s.hash

-- The same of what is to be sent next.
abbrev pub IsTrueNext : (Text → Text) → Kernel → Kernel → Doing → Type 0
IsTrueNext sha cuda open_cl (reporting work nonce hash) =
    IsEmptyOrFound sha cuda open_cl work nonce hash
IsTrueNext sha cuda open_cl _ = Unit

abbrev pub AllSent : (Submission → Type 0) → List Submission → Type 0
AllSent P [] = Unit
AllSent P (s ∷ ss) = P s × AllSent P ss

AllSent-append :
    (P : Submission → Type 0) (ss : List Submission) (s : Submission)
    → AllSent P ss
    → P s
    → AllSent P (ss ++ s ∷ [])
AllSent-append P [] s h p = (p, tt)
AllSent-append P (x ∷ ss) s h p = (h.0, AllSent-append P ss s h.1 p)

-- The submissions that wait for an answer.
abbrev pub pending : Doing → ℕ
pending submitting = 1
pending _ = 0

pub record IsHonest (sha : Text → Text) (cuda open_cl : Kernel) (m : Miner) : Type 0 where
  pub sent_true : AllSent (IsTrueTo sha cuda open_cl) m.sent
  pub next_true : IsTrueNext sha cuda open_cl m.doing
  pub blocks_sent : m.blocks_mined + pending m.doing ≤ length m.sent
  pub notified_once : m.notices ≤ 1
  pub notified_stopped : m.running && ltb 0 m.notices ≡ false
  pub deleted_stopped : m.running && m.deleted_by_server ≡ false
  pub cancelled_stopped : m.running && m.cancelled ≡ false
  pub removed_deleted : m.removed ≡ m.deleted_by_server

module _ (sha : Text → Text) (cuda open_cl : Kernel) (m : Miner)
    (v : IsHonest sha cuda open_cl m) where
  -- What holds on when the control of the miner is left as it is.
  holds_on :
      (m' : Miner)
      → m'.running ≡ m.running
      → m'.notices ≡ m.notices
      → m'.deleted_by_server ≡ m.deleted_by_server
      → m'.cancelled ≡ m.cancelled
      → m'.removed ≡ m.removed
      → AllSent (IsTrueTo sha cuda open_cl) m'.sent
      → IsTrueNext sha cuda open_cl m'.doing
      → m'.blocks_mined + pending m'.doing ≤ length m'.sent
      → IsHonest sha cuda open_cl m'
  holds_on m' running notices deleted cancelled removed sent next blocks = record {
    sent_true = sent;
    next_true = next;
    blocks_sent = blocks;
    notified_once = omega (arith, notices, v.notified_once);
    notified_stopped = rw (running, notices) v.notified_stopped;
    deleted_stopped = rw (running, deleted) v.deleted_stopped;
    cancelled_stopped = rw (running, cancelled) v.cancelled_stopped;
    removed_deleted = removed ∙ v.removed_deleted ∙ sym deleted;
  }

  -- The loop of mine goes on without a submission that waits.
  goes_on :
      (doing : Doing) (index : I64)
      → pending doing ≡ 0
      → IsTrueNext sha cuda open_cl doing
      → IsHonest sha cuda open_cl (record m { doing = doing; current_block_index = index })
  goes_on doing index p next =
      holds_on _ refl refl refl refl refl v.sent_true next (omega (arith, p, v.blocks_sent))

  begin_round-IsHonest : IsHonest sha cuda open_cl (begin_round m)
  unfolding begin_round
  begin_round-IsHonest =
      if_intro (IsHonest sha cuda open_cl) (not m.running)
        (λ _. goes_on ended m.current_block_index refl tt)
        (λ _.
          if_intro (IsHonest sha cuda open_cl) (not m.should_mine) (λ _. v)
            (λ _. goes_on fetching m.current_block_index refl tt))

  take_work-IsHonest : (reply : Option WorkResponse) → IsHonest sha cuda open_cl (take_work reply m)
  unfolding take_work
  take_work-IsHonest none = goes_on resting m.current_block_index refl tt
  take_work-IsHonest (some work) =
      if_intro (IsHonest sha cuda open_cl) (lt64 work.block_index m.current_block_index)
        (λ _. goes_on resting m.current_block_index refl tt)
        (λ _. goes_on (searching work) work.block_index refl tt)

  end_search-IsHonest :
      (work : WorkResponse) (effort : Effort) (answer : I64 × Text × I64)
      → IsAnswer sha cuda open_cl work answer
      → IsHonest sha cuda open_cl (end_search work effort answer m)
  unfolding end_search
  end_search-IsHonest work effort (nonce, hash, hashes) ok =
      if_intro (IsHonest sha cuda open_cl) (not m.running)
        (λ _. holds_on _ refl refl refl refl refl v.sent_true tt (omega (arith, v.blocks_sent)))
        (λ _. holds_on _ refl refl refl refl refl v.sent_true ok (omega (arith, v.blocks_sent)))

  submit_answer-IsHonest :
      (work : WorkResponse) (nonce : I64) (hash : Text)
      → m.doing ≡ reporting work nonce hash
      → IsHonest sha cuda open_cl (submit_answer work nonce hash m)
  unfolding submit_answer
  submit_answer-IsHonest work nonce hash d =
      let next = subst (IsTrueNext sha cuda open_cl) d v.next_true in
      holds_on _ refl refl refl refl refl
        (AllSent-append (IsTrueTo sha cuda open_cl) m.sent _ v.sent_true (refl, next)) tt
        (omega (arith, v.blocks_sent, length-append m.sent))

  take_verdict-IsHonest :
      (verdict : Option SubmissionResponse)
      → m.doing ≡ submitting
      → IsHonest sha cuda open_cl (take_verdict verdict m)
  unfolding take_verdict
  take_verdict-IsHonest none d = goes_on resting m.current_block_index refl tt
  take_verdict-IsHonest (some resp) d =
      let waits : pending m.doing ≡ 1 = rw d refl in
      holds_on _ refl refl refl refl refl v.sent_true tt (ground (arith, waits, v.blocks_sent))

  take_heartbeat-IsHonest :
      (reply : Option HeartbeatResponse) → IsHonest sha cuda open_cl (take_heartbeat reply m)
  unfolding take_heartbeat
  take_heartbeat-IsHonest none =
      holds_on _ refl refl refl refl refl v.sent_true v.next_true v.blocks_sent
  take_heartbeat-IsHonest (some resp) =
      if_intro (IsHonest sha cuda open_cl) (not resp.active)
        (λ _. record {
          sent_true = v.sent_true;
          next_true = v.next_true;
          blocks_sent = v.blocks_sent;
          notified_once = v.notified_once;
          notified_stopped = refl;
          deleted_stopped = refl;
          cancelled_stopped = refl;
          removed_deleted = refl;
        })
        (λ _. holds_on _ refl refl refl refl refl v.sent_true v.next_true v.blocks_sent)

  beat-IsHonest : IsHonest sha cuda open_cl (beat m)
  unfolding beat
  beat-IsHonest =
      if_intro (IsHonest sha cuda open_cl) m.running
        (λ _. holds_on _ refl refl refl refl refl v.sent_true v.next_true v.blocks_sent)
        (λ _. holds_on _ refl refl refl refl refl v.sent_true v.next_true v.blocks_sent)

  stop-IsHonest : IsHonest sha cuda open_cl (stop m)
  unfolding stop
  stop-IsHonest =
      if_intro (IsHonest sha cuda open_cl) (not m.running) (λ _. v)
        (λ runs. record {
          sent_true = v.sent_true;
          next_true = v.next_true;
          blocks_sent = v.blocks_sent;
          notified_once = ground (arith, runs, v.notified_stopped, v.notified_once);
          notified_stopped = refl;
          deleted_stopped = refl;
          cancelled_stopped = refl;
          removed_deleted = v.removed_deleted;
        })

  Handled-IsHonest : (m' : Miner) → Handled sha cuda open_cl m m' → IsHonest sha cuda open_cl m'
  Handled-IsHonest m' (idles e) = rw e v
  Handled-IsHonest m' (did_begin e) = rw e begin_round-IsHonest
  Handled-IsHonest m' (did_take reply n e) = rw e (take_work-IsHonest reply)
  Handled-IsHonest m' (did_search work effort answer ok e) =
      rw e (end_search-IsHonest work effort answer ok)
  Handled-IsHonest m' (did_report work nonce hash d e) =
      rw e (submit_answer-IsHonest work nonce hash d)
  Handled-IsHonest m' (did_submit verdict d e) = rw e (take_verdict-IsHonest verdict d)
  Handled-IsHonest m' (did_beat e) = rw e beat-IsHonest
  Handled-IsHonest m' (did_hear reply e) = rw e (take_heartbeat-IsHonest reply)
  Handled-IsHonest m' (did_stop e) = rw e stop-IsHonest

module _ (sha : Text → Text) (cuda open_cl : Kernel) (gpu : GpuConfig)
    (range : gpu.nonce_range < 2 ^ 64) where
  -- A new client that is started does not panic, in any sequence of events, whatever the kernels
  -- answer, if no work that it gets has a negative difficulty. In the end every submission is for the
  -- block of the work it answers, with an empty hash, a hash of that work that meets its difficulty,
  -- or a nonce and a hash that a kernel answered for that work; no more blocks count as mined than
  -- submissions were sent, one that waits for its answer not counted; the server was told of the end
  -- once at most; a client that runs has not been stopped, cancelled or deleted; and the heartbeats
  -- called selfDelete exactly if the server deleted the client.
  pub miner_run-IsHonest :
      (id : Text) (mining : MiningConfig) (gpu_miner : GpuMiner) (es : List MinerEvent)
      → all_natural es ≡ true
      → (m : Miner) × (miner_run sha cuda open_cl gpu (start (new_miner id mining gpu_miner)) es
          ≡ some m)
        × IsHonest sha cuda open_cl m
  unfolding start new_miner
  miner_run-IsHonest id mining gpu_miner es natural =
      let (m', ran, (_, honest)) =
        miner_run_induction sha cuda open_cl gpu range
          (λ n. IsReady n.doing × IsHonest sha cuda open_cl n) (λ n p. p.0)
          (λ n n' p handled.
            (Handled-IsReady n p.0 n' handled, Handled-IsHonest sha cuda open_cl n p.1 n' handled))
          (start (new_miner id mining gpu_miner)) es natural
          (
            tt,
            record {
              sent_true = tt;
              next_true = tt;
              blocks_sent = omega arith;
              notified_once = omega arith;
              notified_stopped = refl;
              deleted_stopped = refl;
              cancelled_stopped = refl;
              removed_deleted = refl;
            },
          ) in
      (m', ran, honest)
