-- ===== src/Config.antt =====
-- config/config.go: the configuration records and their validation. Reading files, environment
-- variables and defaults is viper's. An error keeps the values that its message prints.
pub mod Client
pub mod Server
pub mod Reload
pub mod Check
pub mod Load
pub mod Watched
pub mod Startup
use red_team_coin.Base.{
  ◌*◌, ◌^◌, Bool, true, false, not, ◌&&◌, ◌||◌, Option, none, some, List, [], ◌∷◌, if◌then◌else◌,
  ◌==◌, Text, text, text_eq, I32, I64, lt32, lt64,
}

pub record ClientTlsConfig : Type 0 where
  pub enabled : Bool
  pub insecure_skip_verify : Bool
  pub ca_cert_file : Text

pub record ServerConnection : Type 0 where
  pub address : Text
  pub tls : ClientTlsConfig

pub record MiningConfig : Type 0 where
  pub gpu_enabled : Bool
  pub hybrid_mode : Bool
  pub auto_delete : Bool

pub record GpuConfig : Type 0 where
  pub nonce_range : I64
  pub cpu_start_nonce : I64

-- A time.Duration is an int64 of nanoseconds.
pub record NetworkConfig : Type 0 where
  pub heartbeat_interval : I64
  pub retry_interval : I64
  pub max_retry_time : I64

pub record BehaviorConfig : Type 0 where
  pub worker_update_interval : I64

pub record ClientLoggingConfig : Type 0 where
  pub level : Text
  pub format : Text
  pub quiet : Bool
  pub verbose : Bool

pub record ClientConfig : Type 0 where
  pub server : ServerConnection
  pub mining : MiningConfig
  pub gpu : GpuConfig
  pub network : NetworkConfig
  pub behavior : BehaviorConfig
  pub logging : ClientLoggingConfig

pub record ServerNetwork : Type 0 where
  pub grpc_port : I64
  pub api_port : I64
  pub http_port : I64

pub record ServerMining : Type 0 where
  pub difficulty : I32
  pub block_reward : I64

pub record TlsConfig : Type 0 where
  pub enabled : Bool
  pub cert_file : Text
  pub key_file : Text

pub record ApiConfig : Type 0 where
  pub read_timeout : I64
  pub write_timeout : I64
  pub idle_timeout : I64

pub record LoggingConfig : Type 0 where
  pub update_interval : I64
  pub file_path : Text
  pub level : Text
  pub format : Text
  pub quiet : Bool
  pub verbose : Bool

pub record ServerConfig : Type 0 where
  pub network : ServerNetwork
  pub mining : ServerMining
  pub tls : TlsConfig
  pub api : ApiConfig
  pub logging : LoggingConfig

pub data ConfigError : Type 0 where
  empty_address : ConfigError
  bad_nonce_range bad_cpu_start_nonce : I64 → ConfigError
  short_heartbeat_interval short_retry_interval : I64 → ConfigError
  max_retry_below_retry : I64 → I64 → ConfigError
  bad_worker_update_interval : I64 → ConfigError
  bad_level bad_format : Text → ConfigError
  bad_grpc_port bad_api_port bad_http_port : I64 → ConfigError
  ports_not_unique : I64 → I64 → I64 → ConfigError
  bad_difficulty : I32 → ConfigError
  bad_block_reward : I64 → ConfigError
  missing_cert_file missing_key_file : ConfigError
  short_read_timeout short_write_timeout short_idle_timeout : I64 → ConfigError
  short_update_interval : I64 → ConfigError
  empty_file_path : ConfigError

-- time.Second.
abbrev pub second : I64
second = 10 ^ 9

-- if test { return error }, and then the rest; `none` is a nil error.
abbrev pub fail_if : Bool → ConfigError → Option ConfigError → Option ConfigError
fail_if test error rest = if test then some error else rest

-- if err := first; err != nil { return err }, and then the rest.
abbrev pub first_error : Option ConfigError → Option ConfigError → Option ConfigError
first_error (some error) rest = some error
first_error none rest = rest

unfoldable pub is_one_of : Text → List Text → Bool
is_one_of t [] = false
is_one_of t (x ∷ xs) = text_eq t x || is_one_of t xs

abbrev pub valid_levels : List Text
valid_levels = text "debug" ∷ text "info" ∷ text "warn" ∷ text "warning" ∷ text "error" ∷ []

abbrev pub valid_formats : List Text
valid_formats = text "text" ∷ text "color" ∷ text "json" ∷ []

unfoldable pub is_empty : Text → Bool
is_empty [] = true
is_empty (c ∷ t) = false

-- c.Logging.Level != "" && !validLevels[c.Logging.Level]
unfoldable pub is_bad_level : Text → Bool
is_bad_level t = not (is_empty t) && not (is_one_of t valid_levels)

unfoldable pub is_bad_format : Text → Bool
is_bad_format t = not (is_empty t) && not (is_one_of t valid_formats)

unfoldable pub validate_client : ClientConfig → Option ConfigError
validate_client c = fail_if (is_empty c.server.address) empty_address (
    fail_if (not (lt64 0 c.gpu.nonce_range)) (bad_nonce_range c.gpu.nonce_range) (
      fail_if (lt64 c.gpu.cpu_start_nonce 0) (bad_cpu_start_nonce c.gpu.cpu_start_nonce) (
        fail_if (lt64 c.network.heartbeat_interval second)
          (short_heartbeat_interval c.network.heartbeat_interval)
          (fail_if (lt64 c.network.retry_interval second)
            (short_retry_interval c.network.retry_interval)
            (fail_if (lt64 c.network.max_retry_time c.network.retry_interval)
              (max_retry_below_retry c.network.max_retry_time c.network.retry_interval)
              (fail_if (not (lt64 0 c.behavior.worker_update_interval))
                (bad_worker_update_interval c.behavior.worker_update_interval)
                (fail_if (is_bad_level c.logging.level) (bad_level c.logging.level) (
                  fail_if (is_bad_format c.logging.format) (bad_format c.logging.format)
                    none))))))))

abbrev pub is_bad_port : I64 → Bool
is_bad_port p = lt64 p 1 || lt64 65535 p

unfoldable pub validate_ports : ServerNetwork → Option ConfigError
validate_ports n = fail_if (is_bad_port n.grpc_port) (bad_grpc_port n.grpc_port) (
    fail_if (is_bad_port n.api_port) (bad_api_port n.api_port) (
      fail_if (is_bad_port n.http_port) (bad_http_port n.http_port) (
        fail_if
          (n.grpc_port == n.api_port || (n.grpc_port == n.http_port || n.api_port == n.http_port))
          (ports_not_unique n.grpc_port n.api_port n.http_port) none)))

unfoldable pub validate_mining_config : ServerMining → Option ConfigError
validate_mining_config m =
    fail_if (lt32 m.difficulty 1 || lt32 64 m.difficulty) (bad_difficulty m.difficulty)
      (fail_if (not (lt64 0 m.block_reward)) (bad_block_reward m.block_reward) none)

unfoldable pub validate_tls_config : TlsConfig → Option ConfigError
validate_tls_config t =
    if not t.enabled
    then none
    else fail_if (is_empty t.cert_file) missing_cert_file
        (fail_if (is_empty t.key_file) missing_key_file none)

unfoldable pub validate_api_config : ApiConfig → Option ConfigError
validate_api_config a = fail_if (lt64 a.read_timeout second) (short_read_timeout a.read_timeout) (
    fail_if (lt64 a.write_timeout second) (short_write_timeout a.write_timeout)
      (fail_if (lt64 a.idle_timeout second) (short_idle_timeout a.idle_timeout) none))

unfoldable pub validate_logging_config : LoggingConfig → Option ConfigError
validate_logging_config l =
    fail_if (lt64 l.update_interval second) (short_update_interval l.update_interval) (
      fail_if (is_empty l.file_path) empty_file_path (
        fail_if (is_bad_level l.level) (bad_level l.level)
          (fail_if (is_bad_format l.format) (bad_format l.format) none)))

unfoldable pub validate_server : ServerConfig → Option ConfigError
validate_server c = first_error (validate_ports c.network) (
    first_error (validate_mining_config c.mining) (
      first_error (validate_tls_config c.tls)
        (first_error (validate_api_config c.api) (validate_logging_config c.logging))))
