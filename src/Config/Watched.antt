-- ===== src/Config/Watched.antt =====
-- A server that has loaded its configuration runs with a valid one, whatever the file becomes.
use red_team_coin.Base.{
  ◌≡◌, refl, sym, subst, text_eq, Option, none, some, List, [], ◌∷◌, if_intro, Option-cases, inl,
  inr,
}
use red_team_coin.Outcome.{ok, ok-injective}
use red_team_coin.Config.{
  ServerConfig, validate_client, validate_server, is_empty, is_bad_level, is_one_of, is_bad_format,
  validate_ports, validate_mining_config, validate_tls_config, validate_api_config,
  validate_logging_config,
}
use red_team_coin.Config.Server.{IsValidServer, validate_server_iff}
use red_team_coin.Config.Reload.{is_logging_changed, check_logging_changes, handle_config_change}
use red_team_coin.Config.Load.{
  FileRead, has_read, not_found, read_error, check_loaded, load, load_server_config,
  on_config_change, after_change, after_changes, unless_invalid, call_back, load_client_config,
  client_defaults, server_defaults,
}

handle_config_change-IsValid :
    (c d : ServerConfig)
    → IsValidServer c
    → IsValidServer d
    → IsValidServer (handle_config_change c d).1.0
unfolding handle_config_change check_logging_changes
handle_config_change-IsValid c d v w =
    if_intro (λ (r : ServerConfig × Option ServerConfig). IsValidServer r.0)
      (is_logging_changed c.logging d.logging)
      (λ e. record {
        network_valid = v.network_valid;
        difficulty_in_range = v.difficulty_in_range;
        reward_positive = v.reward_positive;
        tls_files = v.tls_files;
        read_timeout_long = v.read_timeout_long;
        write_timeout_long = v.write_timeout_long;
        idle_timeout_long = v.idle_timeout_long;
        update_interval_long = v.update_interval_long;
        file_path_set = v.file_path_set;
        level_known = w.level_known;
        format_known = w.format_known;
      })
      (λ e. v)

after_change-IsValid :
    (merged : Option ServerConfig) (c : ServerConfig)
    → IsValidServer c
    → IsValidServer (after_change merged c)
unfolding after_change on_config_change call_back unless_invalid
after_change-IsValid none c v = v
after_change-IsValid (some d) c v = elim (Option-cases (validate_server d)) [
  | inl e ↦
      subst (λ o. IsValidServer (call_back (unless_invalid o d) c)) (sym e)
        (handle_config_change-IsValid c d v ((validate_server_iff d).0 e))
  | inr (error, e) ↦ subst (λ o. IsValidServer (call_back (unless_invalid o d) c)) (sym e) v
]

after_changes-IsValid :
    (changes : List (Option ServerConfig)) (c : ServerConfig)
    → IsValidServer c
    → IsValidServer (after_changes changes c)
unfolding after_changes
after_changes-IsValid [] c v = v
after_changes-IsValid (merged ∷ later) c v =
    after_changes-IsValid later (after_change merged c) (after_change-IsValid merged c v)

check_loaded-IsValid :
    (merged : Option ServerConfig) {c : ServerConfig}
    → check_loaded validate_server merged ≡ ok c
    → IsValidServer c
unfolding check_loaded
check_loaded-IsValid none h = absurd (cc)
check_loaded-IsValid (some d) {c} h = elim (Option-cases (validate_server d)) [
  | inl e ↦
      let same = ok-injective (rw (e, check_loaded) at h) in
      subst IsValidServer same ((validate_server_iff d).0 e)
  | inr (error, e) ↦ absurd (cc (rw (e, check_loaded) at h))
]

load_server-IsValid :
    (file : FileRead) (merged : Option ServerConfig) {c : ServerConfig}
    → load_server_config file merged ≡ ok c
    → IsValidServer c
unfolding load_server_config load
load_server-IsValid has_read merged h = check_loaded-IsValid merged h
load_server-IsValid not_found merged h = check_loaded-IsValid merged h
load_server-IsValid read_error merged h = absurd (cc)

-- If LoadServerConfig returns a configuration, the server has a valid one after any changes of the
-- file, also where some of them cannot be read or are invalid, as long as no flag overrides it.
pub load_server-after_changes :
    (file : FileRead) (merged : Option ServerConfig) {c : ServerConfig}
    (changes : List (Option ServerConfig))
    → load_server_config file merged ≡ ok c
    → IsValidServer (after_changes changes c)
load_server-after_changes file merged {c} changes h =
    after_changes-IsValid changes c (load_server-IsValid file merged h)

-- The default values pass the validation, so that a program without a file and an environment starts.
defaults-valid :
    (load_client_config not_found (some client_defaults) ≡ ok client_defaults)
    × (load_server_config not_found (some server_defaults) ≡ ok server_defaults)
unfolding load_client_config load_server_config load check_loaded client_defaults server_defaults
    validate_client validate_server is_empty is_bad_level is_one_of text_eq is_bad_format
    validate_ports validate_mining_config validate_tls_config validate_api_config
    validate_logging_config
defaults-valid = (refl, refl)
