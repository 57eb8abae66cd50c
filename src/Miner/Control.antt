-- ===== src/Miner/Control.antt =====
-- The client's heartbeats against the server's handlers: how the server's control of a miner takes
-- effect.
use red_team_coin.Base.{
  ℕ, ◌≤◌, ◌≡◌, refl, sym, ◌∙◌, ap, inl, inr, ◌⊎◌, true, false, Option, none, some, bool_eq_iff,
  ==_iff, arith, if◌then◌else◌, subst, Text, I64, Bool-cases, Option-cases,
}
use red_team_coin.Base.Dict.{lookup}
use red_team_coin.Outcome.{Outcome, ok, err, panic}
use red_team_coin.Pool.{Float64, MinerRecord, MiningPool, PoolError}
use red_team_coin.Pool.Registry.{pause_miner, resume_miner, delete_miner}
use red_team_coin.Pool.Invariant.{IsSound, looked_up-IsThrottled}
use red_team_coin.Rpc.{HeartbeatResponse, handle_heartbeat, widen}
use red_team_coin.Rpc.Control.{
  alone, control_reply, deleted_reply, handle_heartbeat-registered, handle_heartbeat-unregistered,
  heartbeat-delete_miner, heartbeat_controls,
}
use red_team_coin.Miner.{Miner, resting, fetching, ended, status, take_heartbeat, begin_round}

-- What the client sees of the server's result: an error of the call, or the response.
unfoldable pub received : Outcome PoolError HeartbeatResponse → Option HeartbeatResponse
received (ok reply) = some reply
received (err e) = none
received panic = none

-- A heartbeat that no other call interrupts, with what its status reports besides the Miner.
unfoldable pub heartbeat_exchange :
    Float64 → I64 → I64 → ℕ → Miner → MiningPool → Miner × MiningPool
heartbeat_exchange cpu_usage mining_time gpu_hash_count now m pool =
    let (pool', result) =
      handle_heartbeat (status cpu_usage mining_time gpu_hash_count m) alone alone now pool in
    (take_heartbeat (received result) m, pool')

-- The client has its record's flags, and goes on as before.
pub record Follows (record_of : MinerRecord) (before after : Miner) : Type 0 where
  pub same_mining : after.should_mine ≡ record_of.should_mine
  pub same_throttle : after.cpu_throttle_percent ≡ record_of.cpu_throttle_percent
  pub same_running : after.running ≡ before.running
  pub same_deleted : after.deleted_by_server ≡ before.deleted_by_server
  pub same_doing : after.doing ≡ before.doing

-- The client has shut down, and removed itself.
pub record IsDeleted (after : Miner) : Type 0 where
  pub not_running : after.running ≡ false
  pub is_cancelled : after.cancelled ≡ true
  pub is_deleted : after.deleted_by_server ≡ true
  pub is_removed : after.removed ≡ true

module _ (m : Miner) where
  take_heartbeat-IsDeleted : IsDeleted (take_heartbeat (some deleted_reply) m)
  unfolding take_heartbeat
  take_heartbeat-IsDeleted = record {
    not_running = refl;
    is_cancelled = refl;
    is_deleted = refl;
    is_removed = refl;
  }

  take_heartbeat-Follows :
      (r : MinerRecord)
      → r.cpu_throttle_percent ≤ 100
      → Follows r m (take_heartbeat (some (control_reply r.should_mine r.cpu_throttle_percent)) m)
  unfolding take_heartbeat widen
  take_heartbeat-Follows r small = record {
    same_mining = ground (arith, bool_eq_iff m.should_mine r.should_mine);
    same_throttle = ground (arith, ==_iff m.cpu_throttle_percent (widen r.cpu_throttle_percent));
    same_running = refl;
    same_deleted = refl;
    same_doing = refl;
  }

module _ (cpu_usage : Float64) (mining_time gpu_hash_count : I64) (now : ℕ) (m : Miner)
    (pool : MiningPool) where
  -- In a sound pool, after a heartbeat that no other call interrupts, the client has shut down,
  -- deleted, if the server does not know it, and the pool is as it was. If the server knows it, the
  -- client has the flags of its record, and goes on as before.
  pub heartbeat_exchange_cases :
      {sha : Text → Text}
      → IsSound sha pool
      → ((lookup m.id pool.miners ≡ none)
          × IsDeleted (heartbeat_exchange cpu_usage mining_time gpu_hash_count now m pool).0
          × ((heartbeat_exchange cpu_usage mining_time gpu_hash_count now m pool).1 ≡ pool))
        ⊎ ((r : MinerRecord) × (lookup m.id pool.miners ≡ some r)
            × Follows r m (heartbeat_exchange cpu_usage mining_time gpu_hash_count now m pool).0)
  unfolding heartbeat_exchange status received
  heartbeat_exchange_cases v =
      let req = status cpu_usage mining_time gpu_hash_count m in
      elim (Option-cases (lookup m.id pool.miners)) [
        | inl missing ↦
            let same = handle_heartbeat-unregistered req now pool alone alone missing in
            inl (
              missing,
              subst (λ r. IsDeleted (take_heartbeat (received r.1) m)) (sym same)
                  (take_heartbeat-IsDeleted m),
              ap (λ p. p.0) same,
            )
        | inr (r, known) ↦
            let same = handle_heartbeat-registered req now pool r known in
            inr (
              r,
              known,
              subst (λ x. Follows r m (take_heartbeat (received x) m)) (sym same)
                  (take_heartbeat-Follows m r (looked_up-IsThrottled pool v m.id known)),
            )
      ]

module _ (cpu_usage : Float64) (mining_time gpu_hash_count : I64) (at_call now : ℕ) (m : Miner)
    (pool : MiningPool) (runs : m.running ≡ true) (rests : m.doing ≡ resting) where
  begin_round-Follows :
      (r : MinerRecord) (after : Miner)
      → Follows r m after
      → (begin_round after).doing ≡ (if r.should_mine then fetching else resting)
  unfolding begin_round
  begin_round-Follows r after f =
      let running : after.running ≡ true = f.same_running ∙ runs in
      let doing : after.doing ≡ resting = f.same_doing ∙ rests in
      elim (Bool-cases r.should_mine) [
        | inl e ↦ rw (running, f.same_mining, e, begin_round) refl
        | inr e ↦ rw (running, f.same_mining, e, begin_round) doing
      ]

  -- A client that runs, is at the head of its loop and is known to the server, with a throttle of 100
  -- at most, asks for no work after PauseMiner and the next heartbeat; it asks for work after ResumeMiner and the next heartbeat; and
  -- its loop ends after DeleteMiner and the next heartbeat.
  pub exchange-begin_round :
      (r : MinerRecord)
      → lookup m.id pool.miners ≡ some r
      → r.cpu_throttle_percent ≤ 100
      → ((begin_round
            (heartbeat_exchange cpu_usage mining_time gpu_hash_count now m
              (pause_miner m.id at_call pool).0).0).doing
          ≡ resting)
        × ((begin_round
              (heartbeat_exchange cpu_usage mining_time gpu_hash_count now m
                (resume_miner m.id at_call pool).0).0).doing
            ≡ fetching)
        × ((begin_round
              (heartbeat_exchange cpu_usage mining_time gpu_hash_count now m
                (delete_miner m.id at_call pool).0).0).doing
            ≡ ended)
  unfolding heartbeat_exchange status received begin_round take_heartbeat
  exchange-begin_round r known small =
      let req = status cpu_usage mining_time gpu_hash_count m in
      let (paused, resumed, _) = heartbeat_controls req at_call now pool r 0 known (omega arith) in
      let deleted = heartbeat-delete_miner req at_call now pool alone alone in
      (
        subst (λ x. (begin_round (take_heartbeat (received x) m)).doing ≡ resting) (sym paused)
            (begin_round-Follows (record r { should_mine = false }) _
              (take_heartbeat-Follows m (record r { should_mine = false }) small)),
        subst (λ x. (begin_round (take_heartbeat (received x) m)).doing ≡ fetching) (sym resumed)
            (begin_round-Follows (record r { should_mine = true }) _
              (take_heartbeat-Follows m (record r { should_mine = true }) small)),
        subst (λ x. (begin_round (take_heartbeat (received x.1) m)).doing ≡ ended) (sym deleted)
            refl,
      )
