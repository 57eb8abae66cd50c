-- ===== src/Tests/WebRuns.antt =====
-- The theorems of the web miners on small inputs.
use red_team_coin.Base.{
  ℕ, ◌≡◌, ◌⊎◌, refl, true, false, ◌||◌, some, none, List, [], ◌∷◌, ◌++◌, get_elem?, replicate,
  text_eq, Text, text, I64,
}
use red_team_coin.Base.Dict.{lookup, delete}
use red_team_coin.Pool.{Float64}
use red_team_coin.Pool.Invariant.{IsSound}
use red_team_coin.Pool.Reachable.{start-IsSound}
use red_team_coin.WebHub.{
  Message, json_text, json_number, registered_reply, WebMiner, WebSocketHub, new_connection,
  text_at, number_at, hub_broadcast, hub_shutdown,
}
use red_team_coin.WebHub.Steps.{
  WebServer, WebEvent, connects, receives, proceeds, drops, web_step, web_run,
}
use red_team_coin.WebHub.Malformed.{GoesOn, holds, has_fields, is_malformed}
use red_team_coin.WebHub.Soundness.{
  takes_down, is_harmful, all_harmless, start_web, web_step-none, web_run-IsSound,
}
use red_team_coin.WebHub.Registered.{entries, is_listed, hub_broadcast-hub_shutdown}
use red_team_coin.Tests.Sample.{toy_sha, toy_sha-HexDigest}

abbrev same_int : Float64 → I64
same_int x = x

abbrev register_message : Message
register_message =
    (text "type", json_text (text "register"))
    ∷ (text "minerId", json_text (text "web-1"))
    ∷ (text "threads", json_number 4)
    ∷ []

abbrev bare_submit : Message
bare_submit = (text "type", json_text (text "submit")) ∷ []

abbrev full_submit : Message
full_submit =
    (text "type", json_text (text "submit"))
    ∷ (text "blockIndex", json_number 1)
    ∷ (text "nonce", json_number 7)
    ∷ (text "hash", json_text (text "0000"))
    ∷ []

-- A server with one connection, which has not registered.
abbrev joined : WebServer
joined = record (start_web toy_sha 3 1700000000) {
  hub = record { connections = new_connection 5 ∷ []; miners = []; running = true };
}

web_step-none_example :
    ((takes_down joined (receives 0 (some bare_submit)) ≡ true)
      × (web_step toy_sha same_int joined (7, receives 0 (some bare_submit)) ≡ none))
    ⊎ ((takes_down joined (receives 0 (some bare_submit)) ≡ false)
        × GoesOn toy_sha (web_step toy_sha same_int joined (7, receives 0 (some bare_submit))))
web_step-none_example =
    web_step-none toy_sha-HexDigest same_int joined 7 (receives 0 (some bare_submit))
      (start-IsSound toy_sha 3 1700000000)

bare_submit-is_malformed : is_malformed bare_submit ≡ true
unfolding is_malformed has_fields text_at number_at lookup holds text_eq
bare_submit-is_malformed = refl

abbrev session : List (ℕ × WebEvent)
session =
    (5, connects)
    ∷ (6, receives 0 (some register_message))
    ∷ (7, proceeds 0)
    ∷ (8, proceeds 0)
    ∷ (9, receives 0 (some full_submit))
    ∷ (10, drops 0)
    ∷ []

session-harmless : all_harmless session ≡ true
unfolding all_harmless is_harmful is_malformed has_fields text_at number_at lookup holds text_eq
session-harmless = refl

web_run-IsSound_example :
    (s : WebServer) × (web_run toy_sha same_int (start_web toy_sha 3 1700000000) session ≡ some s)
    × IsSound toy_sha s.system.pool
web_run-IsSound_example =
    web_run-IsSound toy_sha-HexDigest same_int 3 1700000000 session session-harmless

abbrev named : Text → WebMiner
named id = record (new_connection 5) { id = id }

-- One connection that has registered under two ids, and one that has not registered.
abbrev two_names : WebSocketHub
two_names = record {
  connections = named (text "web-2") ∷ new_connection 6 ∷ [];
  miners = (text "web-1", 0) ∷ (text "web-2", 0) ∷ [];
  running = true;
}

hub_broadcast-hub_shutdown_example :
    (get_elem? (hub_broadcast registered_reply two_names).connections 0
      ≡ some (record (named (text "web-2")) {
        sent = [] ++ replicate (entries 0 two_names.miners) registered_reply;
      }))
    × (get_elem? (hub_shutdown two_names).connections 0
        ≡ some (record (named (text "web-2")) { closed = is_listed 0 two_names.miners || false }))
unfolding entries new_connection
hub_broadcast-hub_shutdown_example = hub_broadcast-hub_shutdown registered_reply two_names 0 refl

-- Connection 1 has taken over the id of connection 0.
abbrev come_back : WebServer
come_back = record (start_web toy_sha 3 1700000000) {
  hub = record {
    connections = named (text "web-1") ∷ named (text "web-1") ∷ [];
    miners = (text "web-1", 1) ∷ [];
    running = true;
  };
}

come_back-listed : lookup (text "web-1") come_back.hub.miners ≡ some 1
unfolding lookup text_eq
come_back-listed = refl

come_back_unique : entries 1 (delete (text "web-1") come_back.hub.miners) ≡ 0
unfolding delete entries text_eq
come_back_unique = refl
