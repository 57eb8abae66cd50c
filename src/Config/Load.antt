-- ===== src/Config/Load.antt =====
-- config/config.go: the default values, LoadClientConfig, LoadServerConfig and WatchServerConfig.
-- viper finds and reads the file and puts file, environment and defaults together: what its calls
-- return is an argument.
use red_team_coin.Base.{◌*◌, true, false, Option, none, some, List, [], ◌∷◌, text}
use red_team_coin.Outcome.{Outcome, ok, err}
use red_team_coin.Config.{
  ClientConfig, ServerConfig, ConfigError, second, validate_client, validate_server,
}
use red_team_coin.Config.Reload.{handle_config_change}

unfoldable pub client_defaults : ClientConfig
client_defaults = record {
  server = record {
    address = text "localhost:50051";
    tls = record { enabled = false; insecure_skip_verify = true; ca_cert_file = [] };
  };
  mining = record { gpu_enabled = true; hybrid_mode = false; auto_delete = true };
  gpu = record { nonce_range = 500000000; cpu_start_nonce = 5000000000 };
  network = record {
    heartbeat_interval = 30 * second;
    retry_interval = 10 * second;
    max_retry_time = 300 * second;
  };
  behavior = record { worker_update_interval = 100000 };
  logging = record { level = text "info"; format = text "color"; quiet = false; verbose = false };
}

unfoldable pub server_defaults : ServerConfig
server_defaults = record {
  network = record { grpc_port = 50051; api_port = 8443; http_port = 8080 };
  mining = record { difficulty = 6; block_reward = 50 };
  tls = record {
    enabled = false;
    cert_file = text "certs/server.crt";
    key_file = text "certs/server.key";
  };
  api = record {
    read_timeout = 15 * second;
    write_timeout = 15 * second;
    idle_timeout = 60 * second;
  };
  logging = record {
    update_interval = 30 * second;
    file_path = text "pool_log.json";
    level = text "info";
    format = text "color";
    quiet = false;
    verbose = false;
  };
}

-- What ReadInConfig returns: nil, a ConfigFileNotFoundError, or another error.
pub data FileRead : Type 0 where
  has_read not_found read_error : FileRead

pub data LoadError : Type 0 where
  error_reading error_unmarshaling : LoadError
  invalid_configuration : ConfigError → LoadError

-- Unmarshal, which fails or gives a configuration, and Validate.
unfoldable pub check_loaded :
    {C : Type 0} → (C → Option ConfigError) → Option C → Outcome LoadError C
check_loaded validate none = err error_unmarshaling
check_loaded validate (some c) = elim (validate c) [
  | none ↦ ok c
  | some e ↦ err (invalid_configuration e)
]

unfoldable pub load :
    {C : Type 0} → (C → Option ConfigError) → FileRead → Option C → Outcome LoadError C
load validate read_error merged = err error_reading
load validate not_found merged = check_loaded validate merged
load validate has_read merged = check_loaded validate merged

unfoldable pub load_client_config : FileRead → Option ClientConfig → Outcome LoadError ClientConfig
load_client_config = load validate_client

unfoldable pub load_server_config : FileRead → Option ServerConfig → Outcome LoadError ServerConfig
load_server_config = load validate_server

-- if err := newConfig.Validate(); err != nil { return }
unfoldable pub unless_invalid : Option ConfigError → ServerConfig → Option ServerConfig
unless_invalid none d = some d
unless_invalid (some e) d = none

-- The handler of a change: the configuration that the callback gets, if it is called.
unfoldable pub on_config_change : Option ServerConfig → Option ServerConfig
on_config_change none = none
on_config_change (some d) = unless_invalid (validate_server d) d

-- The callback of the server: handleConfigChange on the configuration that it runs with.
unfoldable pub call_back : Option ServerConfig → ServerConfig → ServerConfig
call_back none c = c
call_back (some d) c = (handle_config_change c d).1.0

unfoldable pub after_change : Option ServerConfig → ServerConfig → ServerConfig
after_change merged c = call_back (on_config_change merged) c

-- Changes of the file one after the other, each with what Unmarshal gives.
unfoldable pub after_changes : List (Option ServerConfig) → ServerConfig → ServerConfig
after_changes [] c = c
after_changes (merged ∷ later) c = after_changes later (after_change merged c)
