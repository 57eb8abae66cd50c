-- ===== src/Config/Server.antt =====
-- Which server configurations pass the validation, and what becomes of the mining parameters.
use red_team_coin.Base.{
  ◌^◌, ◌≤◌, ◌<◌, ◌≡◌, ◌≢◌, ◌↔◌, ◌⊎◌, refl, true, false, Option, none, some, List, [], ◌∷◌, arith,
  Text, I64,
}
use red_team_coin.Config.{
  ServerNetwork, ServerMining, TlsConfig, ApiConfig, LoggingConfig, ServerConfig, ConfigError,
  second, first_error, is_one_of, valid_levels, valid_formats, is_empty, is_bad_level,
  is_bad_format, validate_ports, validate_mining_config, validate_tls_config, validate_api_config,
  validate_logging_config, validate_server,
}

-- A duration between a second and the largest int64.
abbrev pub IsLongEnough : I64 → Type 0
IsLongEnough t = (second ≤ t) × (t < 2 ^ 63)

abbrev pub IsPort : I64 → Type 0
IsPort p = (1 ≤ p) × (p ≤ 65535)

-- Empty, or in the list.
abbrev pub IsOptionOf : List Text → Text → Type 0
IsOptionOf names t = (t ≡ []) ⊎ (is_one_of t names ≡ true)

pub record IsValidNetwork (n : ServerNetwork) : Type 0 where
  pub grpc_in_range : IsPort n.grpc_port
  pub api_in_range : IsPort n.api_port
  pub http_in_range : IsPort n.http_port
  pub grpc_ne_api : n.grpc_port ≢ n.api_port
  pub grpc_ne_http : n.grpc_port ≢ n.http_port
  pub api_ne_http : n.api_port ≢ n.http_port

pub record IsValidServer (c : ServerConfig) : Type 0 where
  pub network_valid : IsValidNetwork c.network
  pub difficulty_in_range : (1 ≤ c.mining.difficulty) × (c.mining.difficulty ≤ 64)
  pub reward_positive : (0 < c.mining.block_reward) × (c.mining.block_reward < 2 ^ 63)
  pub tls_files : c.tls.enabled ≡ true → (c.tls.cert_file ≢ []) × (c.tls.key_file ≢ [])
  pub read_timeout_long : IsLongEnough c.api.read_timeout
  pub write_timeout_long : IsLongEnough c.api.write_timeout
  pub idle_timeout_long : IsLongEnough c.api.idle_timeout
  pub update_interval_long : IsLongEnough c.logging.update_interval
  pub file_path_set : c.logging.file_path ≢ []
  pub level_known : IsOptionOf valid_levels c.logging.level
  pub format_known : IsOptionOf valid_formats c.logging.format

validate_ports_iff : (n : ServerNetwork) → (validate_ports n ≡ none) ↔ IsValidNetwork n
unfolding validate_ports
validate_ports_iff n = (λ h. ground arith, λ h. ground arith)

validate_mining_config_iff :
    (m : ServerMining)
    → (validate_mining_config m ≡ none) ↔ (
        ((1 ≤ m.difficulty) × (m.difficulty ≤ 64))
        × ((0 < m.block_reward) × (m.block_reward < 2 ^ 63)))
unfolding validate_mining_config
validate_mining_config_iff m = (λ h. ground arith, λ h. ground arith)

pub is_empty_iff : (t : Text) → (is_empty t ≡ true) ↔ (t ≡ [])
unfolding is_empty
is_empty_iff [] = (λ h. refl, λ h. refl)
is_empty_iff (c ∷ t) = (λ h. ground arith, λ h. ground arith)

validate_tls_config_iff :
    (t : TlsConfig)
    → (validate_tls_config t ≡ none) ↔ (t.enabled ≡ true → (t.cert_file ≢ []) × (t.key_file ≢ []))
unfolding validate_tls_config
validate_tls_config_iff t =
    let certificate = is_empty_iff t.cert_file in
    let key = is_empty_iff t.key_file in (λ h. ground arith, λ h. ground arith)

validate_api_config_iff :
    (a : ApiConfig)
    → (validate_api_config a ≡ none)
      ↔ (IsLongEnough a.read_timeout × (IsLongEnough a.write_timeout × IsLongEnough a.idle_timeout))
unfolding validate_api_config
validate_api_config_iff a = (λ h. ground arith, λ h. ground arith)

pub is_bad_level_iff : (t : Text) → (is_bad_level t ≡ false) ↔ IsOptionOf valid_levels t
unfolding is_bad_level
is_bad_level_iff t = let empty = is_empty_iff t in (λ h. ground arith, λ h. ground arith)

pub is_bad_format_iff : (t : Text) → (is_bad_format t ≡ false) ↔ IsOptionOf valid_formats t
unfolding is_bad_format
is_bad_format_iff t = let empty = is_empty_iff t in (λ h. ground arith, λ h. ground arith)

validate_logging_config_iff :
    (l : LoggingConfig)
    → (validate_logging_config l ≡ none) ↔ (
        IsLongEnough l.update_interval
        × ((l.file_path ≢ [])
            × (IsOptionOf valid_levels l.level × IsOptionOf valid_formats l.format)))
unfolding validate_logging_config
validate_logging_config_iff l =
    let path = is_empty_iff l.file_path in
    let level = is_bad_level_iff l.level in
    let format = is_bad_format_iff l.format in (λ h. ground arith, λ h. ground arith)

first_error_iff : (a b : Option ConfigError) → (first_error a b ≡ none) ↔ ((a ≡ none) × (b ≡ none))
first_error_iff none b = (λ h. (refl, h), λ h. h.1)
first_error_iff (some e) b = (λ h. (h, cc), λ h. h.0)

-- Validate of a ServerConfig returns nil for exactly the configurations in which the three ports are in
-- 1..65535 and differ, the difficulty is in 1..64, the block reward is positive, certificate and
-- key file are named if TLS is on, the four durations are a second at least, the log file is named,
-- and level and format are empty or known.
pub validate_server_iff : (c : ServerConfig) → (validate_server c ≡ none) ↔ IsValidServer c
unfolding validate_server
validate_server_iff c =
    let network = validate_ports_iff c.network in
    let mining = validate_mining_config_iff c.mining in
    let tls = validate_tls_config_iff c.tls in
    let api = validate_api_config_iff c.api in
    let logging = validate_logging_config_iff c.logging in
    let on_api = first_error_iff (validate_api_config c.api) (validate_logging_config c.logging) in
    let on_tls = first_error_iff (validate_tls_config c.tls) _ in
    let on_mining = first_error_iff (validate_mining_config c.mining) _ in
    let on_network = first_error_iff (validate_ports c.network) _ in
    (
      λ h.
          let (n, h1) = on_network.0 h in
          let (m, h2) = on_mining.0 h1 in
          let (t, h3) = on_tls.0 h2 in
          let (a, l) = on_api.0 h3 in
          record {
            network_valid = network.0 n;
            difficulty_in_range = (mining.0 m).0;
            reward_positive = (mining.0 m).1;
            tls_files = tls.0 t;
            read_timeout_long = (api.0 a).0;
            write_timeout_long = (api.0 a).1.0;
            idle_timeout_long = (api.0 a).1.1;
            update_interval_long = (logging.0 l).0;
            file_path_set = (logging.0 l).1.0;
            level_known = (logging.0 l).1.1.0;
            format_known = (logging.0 l).1.1.1;
          },
      λ v. on_network.1 (
        network.1 v.network_valid,
        on_mining.1 (
          mining.1 (v.difficulty_in_range, v.reward_positive),
          on_tls.1 (
            tls.1 v.tls_files,
            on_api.1 (
              api.1 (v.read_timeout_long, (v.write_timeout_long, v.idle_timeout_long)),
              logging.1
                  (v.update_interval_long, (v.file_path_set, (v.level_known, v.format_known))),
            ),
          ),
        ),
      ),
    )
