-- ===== src/Config/Check.antt =====
-- tools/validate_config.go: the exit code of the tool that checks configuration files.
-- Loading and validating a file is config.LoadClientConfig or LoadServerConfig: an argument says
-- whether it returns no error. So are the environment and the files that exist.
use red_team_coin.Base.{
  ℕ, ◌≡◌, ◌⊎◌, Bool, true, false, not, ◌&&◌, ◌||◌, List, [], ◌∷◌, arith, if◌then◌else◌, Text, text,
  text_eq, Bool-cases, inl, inr,
}

-- filepath.Join, os.Getenv("HOME"), and whether os.Stat of a path returns no error.
pub record Host : Type 0 where
  pub join : List Text → Text
  pub home : Text
  pub is_there : Text → Bool

module _ (host : Host) where
  unfoldable pub search_paths : Text → List Text
  search_paths filename =
      host.join (text "." ∷ filename ∷ [])
      ∷ host.join (host.home ∷ text ".rtc" ∷ filename ∷ [])
      ∷ host.join (text "/etc/rtc" ∷ filename ∷ [])
      ∷ []

  -- for _, path := range searchPaths { if it is there, return it }; return ""
  unfoldable pub first_there : List Text → Text
  first_there [] = []
  first_there (path ∷ paths) = if host.is_there path then path else first_there paths

  unfoldable pub find_config_file : Text → Text
  find_config_file filename = first_there (search_paths filename)

  -- What validateClientConfig and validateServerConfig have in common.
  unfoldable pub validate_file : Text → (Text → Bool) → Text → Bool
  validate_file filename loads config_path =
      let path = if text_eq config_path [] then find_config_file filename else config_path in
      if text_eq path [] then true else loads path

  unfoldable pub validate_client_config : (Text → Bool) → Text → Bool
  validate_client_config = validate_file (text "client-config.yaml")

  unfoldable pub validate_server_config : (Text → Bool) → Text → Bool
  validate_server_config = validate_file (text "server-config.yaml")

  -- main, with its three flags.
  unfoldable pub check_configs : (Text → Bool) → (Text → Bool) → Text → Text → Bool → ℕ
  check_configs loads_client loads_server client server all =
      let client_code = if not (validate_client_config loads_client client) then 1 else 0 in
      let server_code =
        if not (validate_server_config loads_server server) then 1 else client_code in
      if all || text_eq client [] && text_eq server []
      then server_code
      else let named_client : ℕ =
          if not (text_eq client [])
          then (if not (validate_client_config loads_client client) then 1 else 0)
          else 0 in
        if not (text_eq server [])
        then (if not (validate_server_config loads_server server) then 1 else named_client)
        else named_client

  -- Whether a file is checked: with -all, when it is named, or when the other one is not.
  abbrev pub is_checked : Text → Text → Bool → Bool
  is_checked this other all = all || (not (text_eq this []) || text_eq other [])

  -- The exit code is 0 exactly if every file that is checked passes its check, and 1 otherwise.
  pub check_configs_cases :
      (loads_client loads_server : Text → Bool) (client server : Text) (all : Bool)
      → ((check_configs loads_client loads_server client server all ≡ 0)
          × (is_checked client server all ≡ true
              → validate_client_config loads_client client ≡ true)
          × (is_checked server client all ≡ true
              → validate_server_config loads_server server ≡ true))
        ⊎ ((check_configs loads_client loads_server client server all ≡ 1)
            × ((is_checked client server all ≡ true)
                  × (validate_client_config loads_client client ≡ false)
                ⊎ (is_checked server client all ≡ true)
                  × (validate_server_config loads_server server ≡ false)))
  unfolding check_configs
  check_configs_cases loads_client loads_server client server all =
      elim (Bool-cases
        (is_checked client server all && not (validate_client_config loads_client client))) [
          | inl bad ↦ inr (ground arith, inl (ground arith, ground arith))
          | inr fine ↦
              elim (Bool-cases (
                is_checked server client all && not (validate_server_config loads_server server))) [
                  | inl bad ↦
                      inr (ground (arith, bad), inr (ground (arith, bad), ground (arith, bad)))
                  | inr fine_too ↦ inl (ground arith, (λ h. ground arith), (λ h. ground arith))
                ]
        ]
