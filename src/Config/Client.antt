-- ===== src/Config/Client.antt =====
-- Which client configurations pass the validation.
use red_team_coin.Base.{◌^◌, ◌≤◌, ◌<◌, ◌≡◌, ◌≢◌, ◌↔◌, none, [], arith}
use red_team_coin.Config.{ClientConfig, second, valid_levels, valid_formats, validate_client}
use red_team_coin.Config.Server.{IsOptionOf, is_empty_iff, is_bad_level_iff, is_bad_format_iff}

pub record IsValidClient (c : ClientConfig) : Type 0 where
  pub address_set : c.server.address ≢ []
  pub nonce_range_positive : (0 < c.gpu.nonce_range) × (c.gpu.nonce_range < 2 ^ 63)
  pub cpu_start_nonce_natural : c.gpu.cpu_start_nonce < 2 ^ 63
  pub heartbeat_interval_long : second ≤ c.network.heartbeat_interval
  pub retry_interval_long : second ≤ c.network.retry_interval
  pub retry_le_max_retry : c.network.retry_interval ≤ c.network.max_retry_time
  pub durations_positive :
      (c.network.heartbeat_interval < 2 ^ 63)
      × ((c.network.retry_interval < 2 ^ 63) × (c.network.max_retry_time < 2 ^ 63))
  pub worker_update_positive :
      (0 < c.behavior.worker_update_interval) × (c.behavior.worker_update_interval < 2 ^ 63)
  pub level_known : IsOptionOf valid_levels c.logging.level
  pub format_known : IsOptionOf valid_formats c.logging.format

-- Validate of a ClientConfig returns nil for exactly the configurations with a server address, a positive
-- nonce range and a start nonce that is not negative (both int64), heartbeat and retry intervals of
-- a second at least, a retry limit not below the retry interval, a positive worker update
-- interval, and a level and a format that are empty or known.
pub validate_client_iff : (c : ClientConfig) → (validate_client c ≡ none) ↔ IsValidClient c
unfolding validate_client
validate_client_iff c =
    let address = is_empty_iff c.server.address in
    let level = is_bad_level_iff c.logging.level in
    let format = is_bad_format_iff c.logging.format in (λ h. ground arith, λ h. ground arith)
