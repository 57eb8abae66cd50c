-- ===== src/WebHub/Soundness.antt =====
-- Which messages of a web miner end the server, and what every other event leaves.
use red_team_coin.Base.{
  ℕ, ◌≡◌, refl, inl, inr, ◌⊎◌, Bool, true, false, not, ◌&&◌, Option, none, some, List, [], ◌∷◌,
  arith, get_elem?, Text, text, I32, I64, Option-cases, Bool-cases,
}
use red_team_coin.Chain.{new_blockchain}
use red_team_coin.Chain.Links.{HexDigest}
use red_team_coin.Pool.{Float64, new_mining_pool}
use red_team_coin.Pool.System.{start_system}
use red_team_coin.Pool.Invariant.{IsSound, register_miner-IsSound}
use red_team_coin.Pool.Returns.{get_work-Returns}
use red_team_coin.Pool.Reachable.{step-IsSound, start-IsSound}
use red_team_coin.WebHub.{
  Message, Todo, idle, registering, asking, gone, WebMiner, new_web_socket_hub, text_at,
}
use red_team_coin.WebHub.Steps.{
  WebServer, WebEvent, calls, connects, receives, proceeds, drops, broadcasts, cancels, put,
  receive, proceed, drop_connection, if_idle, web_step, web_run,
}
use red_team_coin.WebHub.Malformed.{
  GoesOn, Settled, Settled-cases, offer_block-ok, put_result-GoesOn, is_malformed, dispatch-Settled,
}

-- The events at which an idle connection reads such a message while the hub runs.
unfoldable pub takes_down : WebServer → WebEvent → Bool
takes_down s (receives i (some msg)) = elim (get_elem? s.hub.connections i) [
  | none ↦ false
  | some miner ↦ if_idle miner.todo (is_malformed msg && s.hub.running) false
]
takes_down s _ = false

module _ {sha : Text → Text} (hex : HexDigest sha) (to_int : Float64 → I64) where
  receive-Settled :
      (i now : ℕ) (msg : Message) (miner : WebMiner) (s : WebServer)
      → IsSound sha s.system.pool
      → Settled sha
          (is_malformed msg && s.hub.running)
          (receive to_int sha i now (some msg) miner s)
  unfolding receive is_malformed put
  receive-Settled i now msg miner s v = elim (Option-cases (text_at (text "type") msg)) [
    | inl e ↦ rw (e, is_malformed, receive) (_, refl, v)
    | inr (kind, e) ↦
        rw (e, is_malformed, receive)
          (dispatch-Settled hex to_int i now msg (record miner { last_seen = now }) s v kind)
  ]

  proceed-GoesOn :
      (todo : Todo) (i now : ℕ) (miner : WebMiner) (s : WebServer)
      → IsSound sha s.system.pool
      → GoesOn sha (proceed to_int todo i now miner s)
  unfolding proceed put
  proceed-GoesOn idle i now miner s v = (_, refl, v)
  proceed-GoesOn registering i now miner s v =
      (_, refl, register_miner-IsSound s.system.pool v miner.id _ _ _ now)
  proceed-GoesOn asking i now miner s v =
      let r = get_work-Returns s.system.pool v miner.id now in
      put_result-GoesOn i miner s _ _ r.0 (offer_block-ok _ miner r.1)
  proceed-GoesOn gone i now miner s v = (_, refl, v)

  if_idle-Settled :
      (todo : Todo) (crash : Bool) (act skip : Option WebServer)
      → Settled sha crash act
      → GoesOn sha skip
      → Settled sha (if_idle todo crash false) (if_idle todo act skip)
  unfolding if_idle
  if_idle-Settled idle crash act skip h k = h
  if_idle-Settled registering crash act skip h k = k
  if_idle-Settled asking crash act skip h k = k
  if_idle-Settled gone crash act skip h k = k

  if_idle-GoesOn :
      (todo : Todo) (act skip : Option WebServer)
      → GoesOn sha act
      → GoesOn sha skip
      → GoesOn sha (if_idle todo act skip)
  unfolding if_idle
  if_idle-GoesOn idle act skip h k = h
  if_idle-GoesOn registering act skip h k = k
  if_idle-GoesOn asking act skip h k = k
  if_idle-GoesOn gone act skip h k = k

  drop_connection-GoesOn :
      (i : ℕ) (miner : WebMiner) (s : WebServer)
      → IsSound sha s.system.pool
      → GoesOn sha (some (drop_connection i miner s))
  unfolding drop_connection put
  drop_connection-GoesOn i miner s v = elim (Bool-cases s.hub.running) [
    | inl e ↦ rw e (_, refl, v)
    | inr e ↦ rw e (_, refl, v)
  ]

  web_step-Settled :
      (s : WebServer) (now : ℕ) (e : WebEvent)
      → IsSound sha s.system.pool
      → Settled sha (takes_down s e) (web_step sha to_int s (now, e))
  unfolding web_step takes_down receive put
  web_step-Settled s now (calls call) v = (_, refl, step-IsSound hex s.system (now, call) v)
  web_step-Settled s now connects v = (_, refl, v)
  web_step-Settled s now (receives i none) v = elim (Option-cases (get_elem? s.hub.connections i)) [
    | inl e ↦ rw (e, web_step) (_, refl, v)
    | inr (miner, e) ↦ rw (e, web_step) (if_idle-GoesOn miner.todo _ _ (_, refl, v) (_, refl, v))
  ]
  web_step-Settled s now (receives i (some msg)) v =
      elim (Option-cases (get_elem? s.hub.connections i)) [
        | inl e ↦ rw (e, web_step, takes_down) (_, refl, v)
        | inr (miner, e) ↦
            rw (e, web_step, takes_down)
              (if_idle-Settled miner.todo _ _ _ (receive-Settled i now msg miner s v) (_, refl, v))
      ]
  web_step-Settled s now (proceeds i) v = elim (Option-cases (get_elem? s.hub.connections i)) [
    | inl e ↦ rw (e, web_step) (_, refl, v)
    | inr (miner, e) ↦ rw (e, web_step) (proceed-GoesOn miner.todo i now miner s v)
  ]
  web_step-Settled s now (drops i) v = elim (Option-cases (get_elem? s.hub.connections i)) [
    | inl e ↦ rw (e, web_step) (_, refl, v)
    | inr (miner, e) ↦
        rw (e, web_step)
          (if_idle-GoesOn miner.todo _ _ (drop_connection-GoesOn i miner s v) (_, refl, v))
  ]
  web_step-Settled s now (broadcasts reply) v = (_, refl, v)
  web_step-Settled s now cancels v = (_, refl, v)

  -- With a digest of 64 characters and in a sound pool, the server goes down at an event exactly
  -- when an idle connection, registered or not, reads a message of type submit in which blockIndex
  -- or nonce is not a number or hash is not a text, while the hub runs: the type assertions of
  -- handleSubmit panic, and the deferred send to the hub goes through. After every other event the
  -- pool is sound.
  pub web_step-none :
      (s : WebServer) (now : ℕ) (e : WebEvent)
      → IsSound sha s.system.pool
      → ((takes_down s e ≡ true) × (web_step sha to_int s (now, e) ≡ none))
        ⊎ ((takes_down s e ≡ false) × GoesOn sha (web_step sha to_int s (now, e)))
  web_step-none s now e v =
      Settled-cases (takes_down s e) (web_step sha to_int s (now, e)) (web_step-Settled s now e v)

-- The events that may take a server down.
unfoldable pub is_harmful : WebEvent → Bool
is_harmful (receives i (some msg)) = is_malformed msg
is_harmful _ = false

unfoldable pub all_harmless : List (ℕ × WebEvent) → Bool
all_harmless [] = true
all_harmless ((now, e) ∷ es) = not (is_harmful e) && all_harmless es

if_idle-false : (todo : Todo) → if_idle todo false false ≡ false
unfolding if_idle
if_idle-false idle = refl
if_idle-false registering = refl
if_idle-false asking = refl
if_idle-false gone = refl

takes_down-false : (s : WebServer) (e : WebEvent) → is_harmful e ≡ false → takes_down s e ≡ false
unfolding takes_down is_harmful
takes_down-false s (receives i (some msg)) h = elim (Option-cases (get_elem? s.hub.connections i)) [
  | inl e ↦ rw (e, takes_down) refl
  | inr (miner, e) ↦ rw (e, takes_down, h) (if_idle-false miner.todo)
]
takes_down-false s (receives i none) h = refl
takes_down-false s (calls call) h = refl
takes_down-false s connects h = refl
takes_down-false s (proceeds i) h = refl
takes_down-false s (drops i) h = refl
takes_down-false s (broadcasts reply) h = refl
takes_down-false s cancels h = refl

module _ {sha : Text → Text} (hex : HexDigest sha) (to_int : Float64 → I64) where
  web_run-GoesOn :
      (s : WebServer) (es : List (ℕ × WebEvent))
      → IsSound sha s.system.pool
      → all_harmless es ≡ true
      → GoesOn sha (web_run sha to_int s es)
  unfolding web_run all_harmless
  web_run-GoesOn s [] v h = (s, refl, v)
  web_run-GoesOn s ((now, e) ∷ es) v h =
      let harmless : is_harmful e ≡ false = ground arith in
      let safe = takes_down-false s e harmless in
      elim (web_step-none hex to_int s now e v) [
        | inl (down, _) ↦ absurd (cc)
        | inr (_, (s', r, v')) ↦ rw (r, web_run) (web_run-GoesOn s' es v' (ground arith))
      ]

-- A server that starts with a new chain, a new pool and a new hub.
abbrev pub start_web : (Text → Text) → I32 → I64 → WebServer
start_web sha difficulty genesis_time = record {
  system = start_system (new_mining_pool (new_blockchain sha difficulty genesis_time));
  hub = new_web_socket_hub;
}

module _ {sha : Text → Text} (hex : HexDigest sha) (to_int : Float64 → I64) where
  -- With a digest of 64 characters, a server with web miners that starts afresh does not go down,
  -- and has a sound pool in the end, in any sequence of calls of the pool and of events of its
  -- connections, at any times, in which each message of type submit has a number as blockIndex, a
  -- number as nonce and a text as hash.
  pub web_run-IsSound :
      (difficulty : I32) (genesis_time : I64) (es : List (ℕ × WebEvent))
      → all_harmless es ≡ true
      → (s : WebServer) × (web_run sha to_int (start_web sha difficulty genesis_time) es ≡ some s)
        × IsSound sha s.system.pool
  web_run-IsSound difficulty genesis_time es h =
      web_run-GoesOn hex to_int _ es (start-IsSound sha difficulty genesis_time) h
