-- ===== src/Api/Remote.antt =====
-- From the administrator's request to the miner: what the next heartbeat says.
use red_team_coin.Base.{ℕ, ◌≤◌, ◌≡◌, ap, some, Text, text, ◌++◌, I32}
use red_team_coin.Base.Dict.{lookup}
use red_team_coin.Outcome.{ok}
use red_team_coin.Pool.{MinerRecord, MiningPool}
use red_team_coin.Rpc.{MinerStatus, handle_heartbeat}
use red_team_coin.Rpc.Control.{
  alone, control_reply, deleted_reply, heartbeat_controls, heartbeat-delete_miner,
}
use red_team_coin.Api.{Request, throttle, remove, serve}
use red_team_coin.Api.Control.{controlled, act_on, throttle_on, acted, turned_away, serve_cases}

module _ (token : Text) (req : Request) (beat : MinerStatus) (at_call now : ℕ) (pool : MiningPool)
    (m : MinerRecord) (authorized : req.authorization ≡ text "Bearer " ++ token)
    (posted : req.method ≡ text "POST") (found : lookup beat.miner_id pool.miners ≡ some m) where
  -- If an authorized POST to the throttle route names a registered miner and at most 100 percent,
  -- the miner's next heartbeat is answered with that percentage, and with the other flag as it was.
  pub serve-heartbeat_throttle :
      (percent : I32)
      → req.throttle_body ≡ some (beat.miner_id, percent)
      → percent ≤ 100
      → (handle_heartbeat beat alone alone now (serve token throttle req at_call pool).0).1
        ≡ ok (control_reply m.should_mine percent)
  unfolding controlled throttle_on
  serve-heartbeat_throttle percent body small = elim (serve_cases token throttle req at_call pool) [
    | acted r _ e _ ↦
        rw (e, body, controlled, throttle_on)
          (heartbeat_controls beat at_call now pool m percent found small).2
    | turned_away r denied _ _ ↦
        absurd (denied (authorized, (posted, (beat.miner_id, percent, body, (m, found), small))))
  ]

  -- If an authorized POST to the delete route names a registered miner, the miner's next heartbeat
  -- is answered with Active false.
  pub serve-heartbeat_delete :
      req.miner_body ≡ some beat.miner_id
      → (handle_heartbeat beat alone alone now (serve token remove req at_call pool).0).1
        ≡ ok deleted_reply
  unfolding controlled act_on
  serve-heartbeat_delete body = elim (serve_cases token remove req at_call pool) [
    | acted r _ e _ ↦
        rw (e, body, controlled, act_on)
          (ap (λ s. s.1) (heartbeat-delete_miner beat at_call now pool alone alone))
    | turned_away r denied _ _ ↦
        absurd (denied (authorized, (posted, (beat.miner_id, body, (m, found)))))
  ]
