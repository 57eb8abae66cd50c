-- ===== src/Api.antt =====
-- server/api.go: the administrator's requests for one miner, behind the check of the token.
-- The HTTP server chooses the route, and encoding/json decodes the body: both are arguments here,
-- the body as what the decoder makes of it.
pub mod Control
pub mod Remote
pub mod Reads
pub mod Served
pub mod Redirect
pub mod Redirected
use red_team_coin.Base.{
  ℕ, ◌≡◌, Bool, true, false, not, Option, none, some, List, [], ◌∷◌, ◌++◌, if◌then◌else◌, length,
  get_elem?, Text, text, text_eq, I32, I64, is_neg64, format_int,
}
use red_team_coin.Outcome.{Outcome, ok, err, panic}
use red_team_coin.Chain.{Block, Blockchain, get_blockchain}
use red_team_coin.Pool.{MiningPool, PoolError, error_text}
use red_team_coin.Pool.Registry.{pause_miner, resume_miner, delete_miner, set_cpu_throttle}

-- The routes under /api/miner/.
pub data Route : Type 0 where
  pause resume remove throttle : Route

-- `none` is a body that does not decode into the handler's struct.
pub record Request : Type 0 where
  pub authorization : Text
  pub method : Text
  pub miner_body : Option Text
  pub throttle_body : Option (Text × I32)

-- http.Error sends a status and plain text; writeJSON a status and an object.
pub data Response : Type 0 where
  generic_error_page : Response
  plain_error : ℕ → Text → Response
  json_error : ℕ → Text → Response
  success : Text → Text → Response
  throttle_success : Text → Text → I32 → Response

-- The end of a handler: an error with the handler's status, or the success.
unfoldable pub answer :
    ℕ
    → Response
    → MiningPool × Outcome PoolError (Unit {0})
    → MiningPool × Outcome PoolError Response
answer status done (pool, ok _) = (pool, ok done)
answer status done (pool, err e) = (pool, ok (json_error status (error_text e)))
answer status done (pool, panic) = (pool, panic)

-- What the handlers of pause, resume and delete have in common.
unfoldable pub handle_miner :
    Text
    → (Text → MiningPool → MiningPool × Outcome PoolError (Unit {0}))
    → Request
    → MiningPool
    → MiningPool × Outcome PoolError Response
handle_miner message act req pool =
    if not (text_eq req.method (text "POST"))
    then (pool, ok (plain_error 405 (text "Method not allowed")))
    else elim req.miner_body [
      | none ↦ (pool, ok (plain_error 400 (text "Invalid request")))
      | some id ↦ answer 404 (success message id) (act id pool)
    ]

unfoldable pub handle_pause_miner :
    Request → ℕ → MiningPool → MiningPool × Outcome PoolError Response
handle_pause_miner req now pool =
    handle_miner (text "Miner paused") (λ id. pause_miner id now) req pool

unfoldable pub handle_resume_miner :
    Request → ℕ → MiningPool → MiningPool × Outcome PoolError Response
handle_resume_miner req now pool =
    handle_miner (text "Miner resumed") (λ id. resume_miner id now) req pool

unfoldable pub handle_delete_miner :
    Request → ℕ → MiningPool → MiningPool × Outcome PoolError Response
handle_delete_miner req now pool =
    handle_miner (text "Miner deleted") (λ id. delete_miner id now) req pool

unfoldable pub handle_throttle_miner :
    Request → ℕ → MiningPool → MiningPool × Outcome PoolError Response
handle_throttle_miner req now pool =
    if not (text_eq req.method (text "POST"))
    then (pool, ok (plain_error 405 (text "Method not allowed")))
    else elim req.throttle_body [
      | none ↦ (pool, ok (plain_error 400 (text "Invalid request")))
      | some (id, percent) ↦
          answer 400
            (throttle_success (text "CPU throttle set to " ++ (format_int percent ++ text "%")) id
              percent)
            (set_cpu_throttle id percent now pool)
    ]

-- authMiddleware around a handler.
unfoldable pub auth_middleware :
    Text
    → (Request → ℕ → MiningPool → MiningPool × Outcome PoolError Response)
    → Request
    → ℕ
    → MiningPool
    → MiningPool × Outcome PoolError Response
auth_middleware token next req now pool =
    if not (text_eq req.authorization (text "Bearer " ++ token))
    then (pool, ok generic_error_page)
    else next req now pool

-- The handler that Start registers for a route.
unfoldable pub handler_of :
    Route → Request → ℕ → MiningPool → MiningPool × Outcome PoolError Response
handler_of pause = handle_pause_miner
handler_of resume = handle_resume_miner
handler_of remove = handle_delete_miner
handler_of throttle = handle_throttle_miner

unfoldable pub serve :
    Text → Route → Request → ℕ → MiningPool → MiningPool × Outcome PoolError Response
serve token route = auth_middleware token (handler_of route)
