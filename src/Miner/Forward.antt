-- ===== src/Miner/Forward.antt =====
-- The client goes on to later blocks only; and the numbers of its GPU devices on their way to the
-- server.
use red_team_coin.Base.{
  ◌-◌, ◌^◌, ◌<◌, ◌≤◌, ◌≡◌, ◌⊎◌, true, false, not, none, some, List, arith, lt64, Text, I64,
  if_intro,
}
use red_team_coin.Config.{GpuConfig}
use red_team_coin.Rpc.{widen}
use red_team_coin.Gpu.{Kernel}
use red_team_coin.Miner.{
  Miner, stop, begin_round, take_work, end_search, submit_answer, take_verdict, beat,
  take_heartbeat, clamp_to_int32,
}
use red_team_coin.Miner.Steps.{MinerEvent, miner_run}
use red_team_coin.Miner.Handled.{
  IsReady, all_natural, Handled, idles, did_begin, did_take, did_search, did_report, did_submit,
  did_beat, did_hear, did_stop, Handled-IsReady, miner_run_induction,
}

-- a is not above b, signed.
abbrev pub NotAbove : I64 → I64 → Type 0
NotAbove a b = lt64 b a ≡ false

NotAbove-refl : (a : I64) → NotAbove a a
NotAbove-refl a = ground arith

NotAbove-trans : (a b c : I64) → NotAbove a b → NotAbove b c → NotAbove a c
NotAbove-trans a b c h k = ground arith

module _ (m : Miner) where
  abbrev IsForward : Miner → Type 0
  IsForward m' = NotAbove m.current_block_index m'.current_block_index

  same_block : NotAbove m.current_block_index m.current_block_index
  same_block = NotAbove-refl m.current_block_index

  Handled-IsForward :
      {sha : Text → Text} {cuda open_cl : Kernel} (m' : Miner)
      → Handled sha cuda open_cl m m'
      → IsForward m'
  unfolding begin_round take_work end_search submit_answer take_verdict beat take_heartbeat stop
  Handled-IsForward m' (idles e) = rw e same_block
  Handled-IsForward m' (did_begin e) = rw e (
      if_intro IsForward (not m.running) (λ _. same_block)
        (λ _. if_intro IsForward (not m.should_mine) (λ _. same_block) (λ _. same_block)))
  Handled-IsForward m' (did_take none n e) = rw e same_block
  Handled-IsForward m' (did_take (some work) n e) = rw e (
      if_intro IsForward (lt64 work.block_index m.current_block_index) (λ _. same_block)
        (λ above. above))
  Handled-IsForward m' (did_search work effort (nonce, hash, hashes) _ e) =
      rw e (if_intro IsForward (not m.running) (λ _. same_block) (λ _. same_block))
  Handled-IsForward m' (did_report work nonce hash _ e) = rw e same_block
  Handled-IsForward m' (did_submit none _ e) = rw e same_block
  Handled-IsForward m' (did_submit (some resp) _ e) = rw e same_block
  Handled-IsForward m' (did_beat e) =
      rw e (if_intro IsForward m.running (λ _. same_block) (λ _. same_block))
  Handled-IsForward m' (did_hear none e) = rw e same_block
  Handled-IsForward m' (did_hear (some resp) e) =
      rw e (if_intro IsForward (not resp.active) (λ _. same_block) (λ _. same_block))
  Handled-IsForward m' (did_stop e) =
      rw e (if_intro IsForward (not m.running) (λ _. same_block) (λ _. same_block))

module _ (sha : Text → Text) (cuda open_cl : Kernel) (gpu : GpuConfig)
    (range : gpu.nonce_range < 2 ^ 64) where
  -- In every sequence of events the index of the block that the client works on, as a signed
  -- number, does not fall: stale work is skipped. No work that it gets or that it is searching has a
  -- negative difficulty.
  pub miner_run-NotAbove :
      (m : Miner) (es : List MinerEvent)
      → IsReady m.doing
      → all_natural es ≡ true
      → (m' : Miner) × (miner_run sha cuda open_cl gpu m es ≡ some m')
        × NotAbove m.current_block_index m'.current_block_index
  miner_run-NotAbove m es ready natural =
      let (m', ran, (_, forward)) =
        miner_run_induction sha cuda open_cl gpu range (λ n. IsReady n.doing × IsForward m n)
          (λ n p. p.0)
          (λ n n' p handled. (
            Handled-IsReady n p.0 n' handled,
            NotAbove-trans m.current_block_index n.current_block_index n'.current_block_index p.1
                (Handled-IsForward n n' handled),
          ))
          m es natural (ready, NotAbove-refl m.current_block_index) in
      (m', ran, forward)

-- An int that fits into 32 bits arrives at the server as it is, and any other arrives as the nearest
-- number that fits: as 2 ^ 31 - 1, or as minus 2 ^ 31.
pub clamp_to_int32-widen :
    (n : I64)
    → n < 2 ^ 64
    → ((n < 2 ^ 31) ⊎ (2 ^ 64 - 2 ^ 31 ≤ n)) × (widen (clamp_to_int32 n) ≡ n)
      ⊎ ((2 ^ 31 ≤ n) × (n < 2 ^ 63) × (widen (clamp_to_int32 n) ≡ 2 ^ 31 - 1))
      ⊎ ((2 ^ 63 ≤ n) × (n < 2 ^ 64 - 2 ^ 31) × (widen (clamp_to_int32 n) ≡ 2 ^ 64 - 2 ^ 31))
unfolding clamp_to_int32 widen
clamp_to_int32-widen n h = ground arith
