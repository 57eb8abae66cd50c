-- ===== src/Config/Reload.antt =====
-- server/main.go: how the server starts its chain and pool from a configuration, which ports it
-- serves, and what a changed configuration file does to it while it runs.
use red_team_coin.Base.{
  ◌≤◌, ◌<◌, ◌≡◌, refl, ◌∙◌, inl, inr, Bool, false, not, ◌||◌, Option, none, some, arith,
  if◌then◌else◌, ◌==◌, Text, text, text_eq, text_eq_iff, text_eq_refl, subst, ◌≢◌, ◌⊎◌, I64,
  Bool-cases, bool_eq, bool_eq_iff,
}
use red_team_coin.Chain.{new_blockchain, clamp_difficulty}
use red_team_coin.Pool.{MiningPool, new_mining_pool}
use red_team_coin.Config.{ServerConfig, LoggingConfig, validate_server}
use red_team_coin.Config.Server.{validate_server_iff}

-- initializeBlockchainAndPool; `sha` and the clock are NewBlockchain's.
unfoldable pub initialize_pool : (Text → Text) → I64 → ServerConfig → MiningPool
initialize_pool sha now c = new_mining_pool (new_blockchain sha c.mining.difficulty now)

-- determineServerPorts: the protocol, its port, and the port that redirects to it, 0 for none.
unfoldable pub determine_server_ports : ServerConfig → Text × (I64 × I64)
determine_server_ports c =
    if c.tls.enabled
    then (text "https", (c.network.api_port, c.network.http_port))
    else (text "http", (c.network.http_port, 0))

unfoldable pub check_port_changes : ServerConfig → ServerConfig → Bool
check_port_changes c d =
    not (d.network.grpc_port == c.network.grpc_port)
    || (not (d.network.api_port == c.network.api_port)
        || not (d.network.http_port == c.network.http_port))

unfoldable pub check_mining_changes : ServerConfig → ServerConfig → Bool
check_mining_changes c d =
    not (d.mining.difficulty == c.mining.difficulty)
    || not (d.mining.block_reward == c.mining.block_reward)

unfoldable pub check_tls_changes : ServerConfig → ServerConfig → Bool
check_tls_changes c d =
    not (bool_eq d.tls.enabled c.tls.enabled)
    || (not (text_eq d.tls.cert_file c.tls.cert_file)
        || not (text_eq d.tls.key_file c.tls.key_file))

-- The fields that a running server takes over.
unfoldable pub is_logging_changed : LoggingConfig → LoggingConfig → Bool
is_logging_changed l m =
    not (text_eq m.level l.level)
    || (not (text_eq m.format l.format)
        || (not (bool_eq m.quiet l.quiet) || not (bool_eq m.verbose l.verbose)))

unfoldable pub needs_new_pool_logger : LoggingConfig → LoggingConfig → Bool
needs_new_pool_logger l m =
    not (m.update_interval == l.update_interval) || not (text_eq m.file_path l.file_path)

-- checkLoggingChanges: whether a restart is needed, the server's configuration afterwards, and the
-- configuration that a new application logger is made from, if one is.
unfoldable pub check_logging_changes :
    ServerConfig → ServerConfig → Bool × (ServerConfig × Option ServerConfig)
check_logging_changes c d = (
  needs_new_pool_logger c.logging d.logging,
  (if is_logging_changed c.logging d.logging
      then (
        record c {
          logging = record c.logging {
            level = d.logging.level;
            format = d.logging.format;
            quiet = d.logging.quiet;
            verbose = d.logging.verbose;
          };
        },
        some d,
      )
      else (c, none)),
)

-- handleConfigChange, with its printed advice to restart as the first component.
unfoldable pub handle_config_change :
    ServerConfig → ServerConfig → Bool × (ServerConfig × Option ServerConfig)
handle_config_change c d =
    let logging = check_logging_changes c d in
    (
      logging.0 || (check_tls_changes c d || (check_mining_changes c d || check_port_changes c d)),
      logging.1,
    )

keeps_text : (s t : Text) → not (text_eq s t) ≡ false → t ≡ s
keeps_text s t h = let same = text_eq_iff s t in ground arith

keeps_bool : (a b : Bool) → not (bool_eq a b) ≡ false → b ≡ a
keeps_bool a b h = let same = bool_eq_iff a b in ground arith

or-false : (a b : Bool) → (a || b) ≡ false → (a ≡ false) × (b ≡ false)
or-false a b h = ground arith

check_port_changes-false :
    (c d : ServerConfig) → check_port_changes c d ≡ false → c.network ≡ d.network
unfolding check_port_changes
check_port_changes-false c d h =
    let grpc : c.network.grpc_port ≡ d.network.grpc_port = ground arith in
    let api : c.network.api_port ≡ d.network.api_port = ground arith in
    let http : c.network.http_port ≡ d.network.http_port = ground arith in cc

check_mining_changes-false :
    (c d : ServerConfig) → check_mining_changes c d ≡ false → c.mining ≡ d.mining
unfolding check_mining_changes
check_mining_changes-false c d h =
    let difficulty : c.mining.difficulty ≡ d.mining.difficulty = ground arith in
    let reward : c.mining.block_reward ≡ d.mining.block_reward = ground arith in cc

check_tls_changes-false : (c d : ServerConfig) → check_tls_changes c d ≡ false → c.tls ≡ d.tls
unfolding check_tls_changes
check_tls_changes-false c d h =
    let (e, fs) = or-false _ _ h in
    let (f, g) = or-false _ _ fs in
    let enabled = keeps_bool _ _ e in
    let certificate = keeps_text _ _ f in let key = keeps_text _ _ g in cc

needs_new_pool_logger-false :
    (l m : LoggingConfig)
    → needs_new_pool_logger l m ≡ false
    → (l.update_interval ≡ m.update_interval) × (l.file_path ≡ m.file_path)
unfolding needs_new_pool_logger
needs_new_pool_logger-false l m h =
    let (i, p) =
      or-false (not (m.update_interval == l.update_interval))
        (not (text_eq m.file_path l.file_path)) h in
    (ground arith, keeps_text _ _ p)

is_logging_changed-false :
    (l m : LoggingConfig)
    → is_logging_changed l m ≡ false
    → ((l.level ≡ m.level) × (l.format ≡ m.format))
      × ((l.quiet ≡ m.quiet) × (l.verbose ≡ m.verbose))
unfolding is_logging_changed
is_logging_changed-false l m h =
    let (a, h1) = or-false _ _ h in
    let (b, h2) = or-false _ _ h1 in
    let (q, v) = or-false _ _ h2 in
    ((keeps_text _ _ a, keeps_text _ _ b), (keeps_bool _ _ q, keeps_bool _ _ v))

check_logging_changes-settled :
    (c d : ServerConfig)
    → needs_new_pool_logger c.logging d.logging ≡ false
    → (check_logging_changes c d).1.0 ≡ record c { logging = d.logging }
unfolding check_logging_changes
check_logging_changes-settled c d h =
    let (interval, path) = needs_new_pool_logger-false _ _ h in
    elim (Bool-cases (is_logging_changed c.logging d.logging)) [
      | inl e ↦ rw (e, if◌then◌else◌) cc
      | inr e ↦
          let ((level, format), (quiet, verbose)) = is_logging_changed-false _ _ e in
          rw (e, if◌then◌else◌) cc
    ]

is_logging_changed-same : (l : LoggingConfig) → is_logging_changed l l ≡ false
unfolding is_logging_changed
is_logging_changed-same l =
    let quiet = bool_eq_iff l.quiet l.quiet in
    let verbose = bool_eq_iff l.verbose l.verbose in
    rw (text_eq_refl l.level, text_eq_refl l.format, quiet.1 refl, verbose.1 refl) refl

-- The application logger after a change: the old one if the settings of the log are the same, and one
-- made from the new configuration otherwise.
abbrev pub TakesOver : ServerConfig → ServerConfig → Option ServerConfig → Type 0
TakesOver c d made =
    ((made ≡ none) × (c.logging ≡ d.logging)) ⊎ ((made ≡ some d) × (c.logging ≢ d.logging))

check_logging_changes-TakesOver :
    (c d : ServerConfig)
    → needs_new_pool_logger c.logging d.logging ≡ false
    → TakesOver c d (check_logging_changes c d).1.1
unfolding check_logging_changes
check_logging_changes-TakesOver c d h =
    let (interval, path) = needs_new_pool_logger-false _ _ h in
    elim (Bool-cases (is_logging_changed c.logging d.logging)) [
      | inl e ↦
          rw (e, if◌then◌else◌)
            (inr (
              refl,
              λ same.
                  let still : is_logging_changed c.logging d.logging ≡ false =
                    subst (λ m. is_logging_changed c.logging m ≡ false) same
                      (is_logging_changed-same c.logging) in
                  absurd (cc (e, still)),
            ))
      | inr e ↦
          let ((level, format), (quiet, verbose)) = is_logging_changed-false _ _ e in
          rw (e, if◌then◌else◌) (inl (refl, cc))
    ]

-- If a configuration change does not ask for a restart, the server's configuration afterwards is
-- the new one in every part but the API timeouts, which keep their old values, and a new application
-- logger is made from the new configuration exactly if the settings of the log differ.
pub handle_config_change-settled :
    (c d : ServerConfig)
    → (handle_config_change c d).0 ≡ false
    → ((handle_config_change c d).1.0 ≡ record d { api = c.api })
      × TakesOver c d (handle_config_change c d).1.1
unfolding handle_config_change check_logging_changes
handle_config_change-settled c d h =
    let (l, h1) = or-false (needs_new_pool_logger c.logging d.logging) _ h in
    let (t, h2) = or-false (check_tls_changes c d) _ h1 in
    let (m, p) = or-false (check_mining_changes c d) _ h2 in
    let tls = check_tls_changes-false c d t in
    let mining = check_mining_changes-false c d m in
    let network = check_port_changes-false c d p in
    let logging = check_logging_changes-settled c d l in
    (logging ∙ cc, check_logging_changes-TakesOver c d l)

-- A configuration that Validate accepts starts a pool whose chain has the configured
-- difficulty only up to 10, and 10 above that, and which pays 50 for a block whatever reward is
-- configured.
pub initialize_pool-mining :
    (sha : Text → Text) (now : I64) (c : ServerConfig)
    → validate_server c ≡ none
    → ((c.mining.difficulty ≤ 10
          → (initialize_pool sha now c).blockchain.difficulty ≡ c.mining.difficulty)
        × (10 < c.mining.difficulty → (initialize_pool sha now c).blockchain.difficulty ≡ 10))
      × ((initialize_pool sha now c).block_reward ≡ 50)
unfolding initialize_pool new_mining_pool new_blockchain clamp_difficulty
initialize_pool-mining sha now c h =
    let range = ((validate_server_iff c).0 h).difficulty_in_range in
    ((λ small. ground arith, λ large. ground arith), refl)
