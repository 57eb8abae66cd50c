-- ===== src/Rpc/Control.antt =====
-- How the server's control of a miner reaches it: the response to its next heartbeat.
use red_team_coin.Base.{
  ℕ, ◌≤◌, ◌≡◌, ap, ◌∙◌, inl, inr, Bool, true, false, ◌||◌, none, some, arith, lt32, Text, text,
  text_eq, text_eq_refl, I32, Option-cases,
}
use red_team_coin.Base.Dict.{lookup, lookup-insert, lookup-delete}
use red_team_coin.Outcome.{ok, err}
use red_team_coin.Pool.{
  MinerRecord, MiningPool, miner_not_registered, error_text, report, with_miner,
}
use red_team_coin.Pool.Registry.{
  Heartbeat, set_miner, update_heartbeat_with_gpu, pause_miner, resume_miner, delete_miner,
  set_cpu_throttle, get_miner_status, get_cpu_throttle,
}
use red_team_coin.Rpc.{
  MinerStatus, HeartbeatResponse, to_heartbeat, heartbeat_reply, handle_heartbeat,
}

abbrev pub alone : MiningPool → MiningPool
alone pool = pool

-- The response of a miner that is told to go on, by the flags in its record.
abbrev pub control_reply : Bool → I32 → HeartbeatResponse
control_reply should_mine throttle = record {
  active = true;
  message = text "Heartbeat received";
  should_mine = should_mine;
  cpu_throttle_percent = throttle;
}

abbrev pub deleted_reply : HeartbeatResponse
deleted_reply = record {
  active = false;
  message = text "Miner has been deleted from the pool";
  should_mine = false;
  cpu_throttle_percent = 0;
}

status-of_lookup :
    (id : Text) (pool : MiningPool) (m : MinerRecord)
    → lookup id pool.miners ≡ some m
    → (get_miner_status id pool ≡ ok m.should_mine)
      × (get_cpu_throttle id pool ≡ ok m.cpu_throttle_percent)
unfolding get_miner_status get_cpu_throttle
status-of_lookup id pool m found = (rw (found, get_miner_status), rw (found, get_cpu_throttle))

beaten : Heartbeat → ℕ → MinerRecord → MinerRecord
beaten beat now m = record m {
  last_heartbeat = now;
  hash_rate = beat.hash_rate;
  cpu_usage_percent = beat.cpu_usage;
  total_hashes = beat.total_hashes;
  total_mining_time = beat.mining_time;
  gpu_devices = beat.gpu_devices;
  gpu_hash_rate = beat.gpu_hash_rate;
  gpu_enabled = beat.gpu_enabled;
  hybrid_mode = beat.hybrid_mode;
}

module _ (req : MinerStatus) (now : ℕ) (pool : MiningPool) where
  -- A heartbeat of a registered miner that no other call interrupts is answered with the miner's
  -- own control flags.
  pub handle_heartbeat-registered :
      (m : MinerRecord)
      → lookup req.miner_id pool.miners ≡ some m
      → (handle_heartbeat req alone alone now pool).1
        ≡ ok (control_reply m.should_mine m.cpu_throttle_percent)
  unfolding handle_heartbeat heartbeat_reply update_heartbeat_with_gpu with_miner set_miner beaten
  handle_heartbeat-registered m found =
      let m' = beaten (to_heartbeat req) now m in
      let q = set_miner req.miner_id m' pool in
      let updated : update_heartbeat_with_gpu req.miner_id (to_heartbeat req) now pool
          ≡ (q, ok tt) =
        rw (found, with_miner) in
      let flags = status-of_lookup req.miner_id q m' (simp (lookup-insert, text_eq_refl)) in
      ap (λ r. (heartbeat_reply req.miner_id alone alone r.0 r.1).1) updated ∙ rw (flags.0, flags.1)

  -- A heartbeat of a miner that is not registered changes nothing, and tells the miner to end.
  pub handle_heartbeat-unregistered :
      (then₁ then₂ : MiningPool → MiningPool)
      → lookup req.miner_id pool.miners ≡ none
      → handle_heartbeat req then₁ then₂ now pool ≡ (pool, ok deleted_reply)
  unfolding handle_heartbeat heartbeat_reply update_heartbeat_with_gpu with_miner error_text text_eq
  handle_heartbeat-unregistered then₁ then₂ missing =
      let refused : update_heartbeat_with_gpu req.miner_id (to_heartbeat req) now pool
          ≡ (pool, err miner_not_registered) =
        rw (missing, with_miner) in
      ap (λ r. heartbeat_reply req.miner_id then₁ then₂ r.0 r.1) refused

module _ (id : Text) (now : ℕ) (pool : MiningPool) (m : MinerRecord)
    (found : lookup id pool.miners ≡ some m) where
  lookup-pause :
      lookup id (pause_miner id now pool).0.miners ≡ some (record m { should_mine = false })
  unfolding pause_miner with_miner report set_miner
  lookup-pause = rw (found, pause_miner, with_miner) (simp (lookup-insert, text_eq_refl))

  lookup-resume :
      lookup id (resume_miner id now pool).0.miners ≡ some (record m { should_mine = true })
  unfolding resume_miner with_miner report set_miner
  lookup-resume = rw (found, resume_miner, with_miner) (simp (lookup-insert, text_eq_refl))

  lookup-throttle :
      (percent : I32)
      → percent ≤ 100
      → lookup id (set_cpu_throttle id percent now pool).0.miners
        ≡ some (record m { cpu_throttle_percent = percent })
  unfolding set_cpu_throttle with_miner report set_miner
  lookup-throttle percent small =
      let inside : (lt32 percent 0 || lt32 100 percent) ≡ false = ground arith in
      rw (found, set_cpu_throttle, with_miner, inside) (simp (lookup-insert, text_eq_refl))

lookup-delete_miner :
    (id : Text) (now : ℕ) (pool : MiningPool) → lookup id (delete_miner id now pool).0.miners ≡ none
unfolding delete_miner with_miner report
lookup-delete_miner id now pool = elim (Option-cases (lookup id pool.miners)) [
  | inl e ↦ rw (e, delete_miner, with_miner) e
  | inr (m, e) ↦ rw (e, delete_miner, with_miner) (simp (lookup-delete, text_eq_refl))
]

module _ (req : MinerStatus) (at_call now : ℕ) (pool : MiningPool) where
  -- After DeleteMiner the next heartbeat of that miner, if it has not registered again, is answered
  -- with Active false, whatever other calls come while it is served, and leaves the pool alone.
  pub heartbeat-delete_miner :
      (then₁ then₂ : MiningPool → MiningPool)
      → handle_heartbeat req then₁ then₂ now (delete_miner req.miner_id at_call pool).0
        ≡ ((delete_miner req.miner_id at_call pool).0, ok deleted_reply)
  heartbeat-delete_miner then₁ then₂ =
      handle_heartbeat-unregistered req now _ then₁ then₂
        (lookup-delete_miner req.miner_id at_call pool)

  -- For a registered miner, the next heartbeat after PauseMiner says not to mine, after ResumeMiner
  -- to mine, and after SetCPUThrottle with at most 100 it carries that percentage; the other flag
  -- is as it was.
  pub heartbeat_controls :
      (m : MinerRecord) (percent : I32)
      → lookup req.miner_id pool.miners ≡ some m
      → percent ≤ 100
      → ((handle_heartbeat req alone alone now (pause_miner req.miner_id at_call pool).0).1
          ≡ ok (control_reply false m.cpu_throttle_percent))
        × ((handle_heartbeat req alone alone now (resume_miner req.miner_id at_call pool).0).1
            ≡ ok (control_reply true m.cpu_throttle_percent))
        × ((handle_heartbeat req alone alone now
              (set_cpu_throttle req.miner_id percent at_call pool).0).1
            ≡ ok (control_reply m.should_mine percent))
  heartbeat_controls m percent found small = (
    handle_heartbeat-registered req now _ (record m { should_mine = false })
        (lookup-pause req.miner_id at_call pool m found),
    handle_heartbeat-registered req now _ (record m { should_mine = true })
        (lookup-resume req.miner_id at_call pool m found),
    handle_heartbeat-registered req now _ (record m { cpu_throttle_percent = percent })
        (lookup-throttle req.miner_id at_call pool m found percent small),
  )
