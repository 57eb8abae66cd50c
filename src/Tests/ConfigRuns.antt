-- ===== src/Tests/ConfigRuns.antt =====
-- The theorems of the configuration (config/config.go, server/main.go) on small inputs.
use red_team_coin.Base.{
  ◌*◌, ◌≡◌, ◌↔◌, refl, [], ◌∷◌, none, some, text, true, false, text_eq, bool_eq,
}
use red_team_coin.Config.{
  ClientConfig, ServerConfig, second, is_one_of, is_empty, is_bad_level, is_bad_format,
  validate_client, validate_ports, validate_mining_config, validate_tls_config, validate_api_config,
  validate_logging_config, validate_server,
}
use red_team_coin.Config.Server.{IsValidServer, validate_server_iff}
use red_team_coin.Config.Reload.{
  TakesOver, handle_config_change, handle_config_change-settled, check_tls_changes,
  check_logging_changes, check_port_changes, needs_new_pool_logger, check_mining_changes,
}
use red_team_coin.Outcome.{ok}
use red_team_coin.Config.Load.{not_found, load_server_config, load, check_loaded, after_changes}
use red_team_coin.Config.Watched.{load_server-after_changes}

abbrev default_server : ServerConfig
default_server = record {
  network = record { grpc_port = 50051; api_port = 8443; http_port = 8080 };
  mining = record { difficulty = 16; block_reward = 75 };
  tls = record { enabled = false; cert_file = []; key_file = [] };
  api = record {
    read_timeout = 15 * second;
    write_timeout = 15 * second;
    idle_timeout = 60 * second;
  };
  logging = record {
    update_interval = 30 * second;
    file_path = text "pool_log.json";
    level = text "info";
    format = text "color";
    quiet = false;
    verbose = false;
  };
}

abbrev debug_server : ServerConfig
debug_server = record default_server {
  logging = record default_server.logging { level = text "debug" };
}

abbrev broken_server : ServerConfig
broken_server = record default_server { mining = record { difficulty = 0; block_reward = 75 } }

abbrev lab_client : ClientConfig
lab_client = record {
  server = record {
    address = text "10.0.0.1:50051";
    tls = record { enabled = false; insecure_skip_verify = false; ca_cert_file = [] };
  };
  mining = record { gpu_enabled = true; hybrid_mode = false; auto_delete = true };
  gpu = record { nonce_range = 500000000; cpu_start_nonce = 5000000000 };
  network = record {
    heartbeat_interval = 30 * second;
    retry_interval = 10 * second;
    max_retry_time = 300 * second;
  };
  behavior = record { worker_update_interval = 100000 };
  logging = record { level = []; format = []; quiet = false; verbose = false };
}

validate_server_iff_example : (validate_server default_server ≡ none) ↔ IsValidServer default_server
validate_server_iff_example = validate_server_iff default_server

accepts_client : validate_client lab_client ≡ none
unfolding validate_client is_empty is_bad_level is_bad_format
accepts_client = refl

default_server-accepted : validate_server default_server ≡ none
unfolding validate_server validate_ports validate_mining_config validate_tls_config
    validate_api_config validate_logging_config is_empty is_bad_level is_one_of text_eq
    is_bad_format
default_server-accepted = refl

debug-settles : (handle_config_change default_server debug_server).0 ≡ false
unfolding handle_config_change check_logging_changes needs_new_pool_logger text_eq check_tls_changes
    bool_eq check_mining_changes check_port_changes
debug-settles = refl

handle_config_change-settled_example :
    ((handle_config_change default_server debug_server).1.0
      ≡ record debug_server { api = default_server.api })
    × TakesOver default_server debug_server (handle_config_change default_server debug_server).1.1
handle_config_change-settled_example =
    handle_config_change-settled default_server debug_server debug-settles

default_server-loaded : load_server_config not_found (some default_server) ≡ ok default_server
unfolding load_server_config load check_loaded validate_server validate_ports validate_mining_config
    validate_tls_config validate_api_config validate_logging_config is_empty is_bad_level is_one_of
    text_eq is_bad_format
default_server-loaded = refl

load_server-after_changes_example :
    IsValidServer
      (after_changes (some debug_server ∷ none ∷ some broken_server ∷ []) default_server)
load_server-after_changes_example =
    load_server-after_changes not_found (some default_server)
      (some debug_server ∷ none ∷ some broken_server ∷ []) default_server-loaded
