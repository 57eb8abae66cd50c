-- ===== src/Config/Startup.antt =====
-- client/main.go and server/main.go: how flags, the environment and the configuration are put
-- together at the start, and which starts end the program.
use red_team_coin.Base.{
  ℕ, Bool, true, not, ◌&&◌, Option, none, some, [], if◌then◌else◌, Text, text_eq,
}
use red_team_coin.Config.{ClientConfig, ClientLoggingConfig, LoggingConfig, ServerConfig, TlsConfig}
use red_team_coin.EventLog.{new_pool_logger}
use red_team_coin.Pool.{MiningPool, set_logger}

-- The flags; an unset text is empty. `auto_delete` is `none` where the flag is not given.
pub record Flags : Type 0 where
  pub server_address : Text
  pub auto_delete : Option Bool
  pub log_level : Text
  pub log_format : Text
  pub quiet : Bool
  pub verbose : Bool

unfoldable pub resolve_auto_delete_setting : Flags → ClientConfig → Bool
resolve_auto_delete_setting flags cfg = elim flags.auto_delete [
  | none ↦ cfg.mining.auto_delete
  | some given ↦ given
]

unfoldable pub apply_logging_overrides : Flags → ClientLoggingConfig → ClientLoggingConfig
apply_logging_overrides flags logging = record {
  level = if not (text_eq flags.log_level []) then flags.log_level else logging.level;
  format = if not (text_eq flags.log_format []) then flags.log_format else logging.format;
  quiet = if flags.quiet then true else logging.quiet;
  verbose = if flags.verbose then true else logging.verbose;
}

-- The server's main does the same with its own record.
unfoldable pub apply_server_overrides : Flags → LoggingConfig → LoggingConfig
apply_server_overrides flags logging = record logging {
  level = if not (text_eq flags.log_level []) then flags.log_level else logging.level;
  format = if not (text_eq flags.log_format []) then flags.log_format else logging.format;
  quiet = if flags.quiet then true else logging.quiet;
  verbose = if flags.verbose then true else logging.verbose;
}

unfoldable pub choose_server_address : Flags → ClientConfig → Text
choose_server_address flags cfg =
    if text_eq flags.server_address [] then cfg.server.address else flags.server_address

-- RTC_AUTH_TOKEN, or else a new token, which crypto/rand makes.
unfoldable pub get_auth_token : Text → Text → Text
get_auth_token from_environment generated =
    if not (text_eq from_environment []) then from_environment else generated

-- False is an exit with code 1; `file_exists` is os.Stat without an error.
unfoldable pub check_tls_certificates : (Text → Bool) → TlsConfig → Bool
check_tls_certificates file_exists tls =
    if not tls.enabled then true else file_exists tls.cert_file && file_exists tls.key_file

-- `path` is filepath.Join of the executable's directory and the configured file, or none where
-- os.Executable fails, which is an exit with code 1.
unfoldable pub initialize_pool_logger :
    (Text → Option Text) → ServerConfig → ℕ → MiningPool → Option MiningPool
initialize_pool_logger path cfg now pool = elim (path cfg.logging.file_path) [
  | none ↦ none
  | some log_file ↦
      some (set_logger (new_pool_logger log_file cfg.logging.update_interval now) pool)
]
