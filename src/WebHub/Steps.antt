-- ===== src/WebHub/Steps.antt =====
-- The server with its web miners: the pool's calls and what happens on the connections, in any
-- order. `none` is a panic in a connection's goroutine, which ends the process.
use red_team_coin.Base.{
  ℕ, Option, none, some, List, [], ◌∷◌, if◌then◌else◌, get_elem?, Text, text, text_eq, ◌++◌, I64,
}
use red_team_coin.Outcome.{Outcome, ok, err, panic}
use red_team_coin.Pool.{Float64, MiningPool, PoolError}
use red_team_coin.Pool.Registry.{register_miner}
use red_team_coin.Pool.Work.{get_work}
use red_team_coin.Pool.System.{System, Call, step}
use red_team_coin.WebHub.{
  Message, Reply, registered_reply, Todo, idle, registering, asking, gone, WebMiner, WebSocketHub,
  text_at, new_connection, send_to_miner, register_fields, handle_stats, handle_submit, offer_block,
  set_connection, hub_register, hub_unregister, hub_broadcast, hub_shutdown,
}

pub record WebServer : Type 0 where
  pub system : System
  pub hub : WebSocketHub

pub data WebEvent : Type 0 where
  calls : Call → WebEvent
  connects : WebEvent
  receives : ℕ → Option Message → WebEvent
  proceeds : ℕ → WebEvent
  drops : ℕ → WebEvent
  broadcasts : Reply → WebEvent
  cancels : WebEvent

abbrev pub with_pool : MiningPool → WebServer → WebServer
with_pool pool s = record s { system = record s.system { pool = pool } }

unfoldable pub put : ℕ → WebMiner → WebServer → WebServer
put i miner s = record s { hub = set_connection i miner s.hub }

-- A panic in handleMiner: its deferred send to h.unregist comes before the end of the process, and
-- waits for good if the hub has stopped. The goroutine does nothing between the two.
unfoldable pub fail : ℕ → WebMiner → WebServer → Option WebServer
fail i miner s = if s.hub.running then none else some (put i (record miner { todo = gone }) s)

-- What a pool's operation leaves: the pool, and the connection unless it panicked.
unfoldable pub put_result :
    ℕ → WebMiner → WebServer → MiningPool × Outcome PoolError WebMiner → Option WebServer
put_result i before s (pool, ok miner) = some (put i miner (with_pool pool s))
put_result i before s (pool, err _) = fail i before (with_pool pool s)
put_result i before s (pool, panic) = fail i before (with_pool pool s)

module _ (to_int : Float64 → I64) where
  -- handleRegister. The send to h.register waits for good if the hub has stopped.
  unfoldable pub handle_register : ℕ → Message → WebMiner → WebServer → WebServer
  handle_register i msg miner s =
      let named = register_fields to_int msg miner in
      if s.hub.running
      then put i (record (send_to_miner registered_reply named) { todo = registering })
          (record s { hub = hub_register i named s.hub })
      else put i (record named { todo = gone }) s

  module _ (sha : Text → Text) where
    -- The switch of handleMiner.
    unfoldable pub dispatch : Text → ℕ → ℕ → Message → WebMiner → WebServer → Option WebServer
    dispatch kind i now msg miner s =
        if text_eq kind (text "register")
        then some (handle_register i msg miner s)
        else if text_eq kind (text "getwork")
        then some (put i (record miner { todo = registering }) s)
        else if text_eq kind (text "submit")
        then put_result i miner s (handle_submit sha to_int msg now miner s.system.pool)
        else if text_eq kind (text "stats")
        then some (put i (handle_stats to_int msg miner) s)
        else some (put i miner s)

    -- The body of the loop of handleMiner, for a message that has been read.
    unfoldable pub receive : ℕ → ℕ → Option Message → WebMiner → WebServer → Option WebServer
    receive i now message miner s =
        let seen = record miner { last_seen = now } in
        elim message [
          | none ↦ some (put i seen s)
          | some msg ↦ elim (text_at (text "type") msg) [
            | none ↦ some (put i seen s)
            | some kind ↦ dispatch kind i now msg seen s
          ]
        ]

  -- The goroutine's next step, and the end of a connection, by where the goroutine stands.
  unfoldable pub proceed : Todo → ℕ → ℕ → WebMiner → WebServer → Option WebServer
  proceed idle i now miner s = some s
  proceed registering i now miner s =
      let pool =
        (register_miner miner.id (text "web") (text "browser") (text "web-client") now
          s.system.pool).0 in
      some (put i (record miner { todo = asking }) (with_pool pool s))
  proceed asking i now miner s =
      let (pool, result) = get_work miner.id now s.system.pool in
      put_result i miner s (pool, offer_block result miner)
  proceed gone i now miner s = some s

unfoldable pub drop_connection : ℕ → WebMiner → WebServer → WebServer
drop_connection i miner s =
    let ended = record miner { todo = gone } in
    let s' = put i ended s in
    if s.hub.running then record s' { hub = hub_unregister i ended s'.hub } else s'

-- A goroutine reads, or notices the end of the connection, only while it is idle.
unfoldable pub if_idle : {A : Type 0} → Todo → A → A → A
if_idle idle act skip = act
if_idle registering act skip = skip
if_idle asking act skip = skip
if_idle gone act skip = skip

module _ (sha : Text → Text) (to_int : Float64 → I64) where
  unfoldable pub web_step : WebServer → ℕ × WebEvent → Option WebServer
  web_step s (now, calls call) = some (record s { system = step sha s.system (now, call) })
  web_step s (now, connects) = some (record s {
    hub = record s.hub { connections = s.hub.connections ++ new_connection now ∷ [] };
  })
  web_step s (now, receives i message) = elim (get_elem? s.hub.connections i) [
    | none ↦ some s
    | some miner ↦ if_idle miner.todo (receive to_int sha i now message miner s) (some s)
  ]
  web_step s (now, proceeds i) = elim (get_elem? s.hub.connections i) [
    | none ↦ some s
    | some miner ↦ proceed to_int miner.todo i now miner s
  ]
  web_step s (now, drops i) = elim (get_elem? s.hub.connections i) [
    | none ↦ some s
    | some miner ↦ if_idle miner.todo (some (drop_connection i miner s)) (some s)
  ]
  web_step s (now, broadcasts reply) = some (record s { hub = hub_broadcast reply s.hub })
  web_step s (now, cancels) = some (record s { hub = hub_shutdown s.hub })

  unfoldable pub web_run : WebServer → List (ℕ × WebEvent) → Option WebServer
  web_run s [] = some s
  web_run s (e ∷ es) = elim (web_step s e) [ none ↦ none | some s' ↦ web_run s' es ]
