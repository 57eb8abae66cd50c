-- ===== src/WebHub.antt =====
-- server/websocket.go: the hub of the miners that run in browsers.
-- A connection and its miner are one object that the hub's map and a goroutine share: the store
-- `connections` holds them by number, and the map names numbers. The goroutine of a connection
-- takes one call of the pool at a time: `todo` says where it stands, and other calls come between.
-- encoding/json decodes a message, gorilla/websocket carries it; both are arguments, as is the
-- conversion `to_int` of a float64 to int64. What is handed to a connection's WriteMessage is `sent`.
pub mod Steps
pub mod Malformed
pub mod Soundness
pub mod Registered
use red_team_coin.Base.{
  ℕ, zero, suc, Bool, true, false, ◌&&◌, Option, none, some, List, [], ◌∷◌, ◌++◌, if◌then◌else◌,
  length, get_elem?, Text, text, text_eq, I64, add64, format_int,
}
use red_team_coin.Base.Dict.{Dict, lookup, insert, delete}
use red_team_coin.Outcome.{Outcome, ok, err, panic}
use red_team_coin.Chain.{Block}
use red_team_coin.Pool.{Float64, MiningPool, PoolError, error_text}
use red_team_coin.Pool.Work.{submit_work}

pub data JsonValue : Type 0 where
  json_text : Text → JsonValue
  json_number : Float64 → JsonValue
  json_bool : Bool → JsonValue
  json_other : JsonValue

abbrev pub Message : Type 0
Message = Dict JsonValue

-- The messages that the server sends.
pub data Reply : Type 0 where
  registered_reply : Reply
  error_reply : Text → Reply
  work_reply : I64 → Text → Text → I64 → I64 → Reply
  accepted_reply : Bool → Text → I64 → Reply

-- idle: the goroutine waits for a message; registering: it is about to call RegisterMiner for work;
-- asking: it is about to call GetWork; gone: it has ended, or waits for a hub that has stopped.
pub data Todo : Type 0 where
  idle registering asking gone : Todo

pub record WebMiner : Type 0 where
  pub id : Text
  pub user_agent : Text
  pub threads : I64
  pub has_gpu : Bool
  pub version : Text
  pub hash_rate : I64
  pub hashes : I64
  pub blocks : I64
  pub joined_at : ℕ
  pub last_seen : ℕ
  pub todo : Todo
  pub closed : Bool
  pub sent : List Reply

pub record WebSocketHub : Type 0 where
  pub connections : List WebMiner
  pub miners : Dict ℕ
  pub running : Bool

abbrev pub new_web_socket_hub : WebSocketHub
new_web_socket_hub = record { connections = []; miners = []; running = true }

-- msg[key].(string), and so on: none where the key is missing or the value has another type.
unfoldable pub text_at : Text → Message → Option Text
text_at key msg = elim (lookup key msg) [ some (json_text t) ↦ some t | _ ↦ none ]

unfoldable pub number_at : Text → Message → Option Float64
number_at key msg = elim (lookup key msg) [ some (json_number x) ↦ some x | _ ↦ none ]

unfoldable pub bool_at : Text → Message → Option Bool
bool_at key msg = elim (lookup key msg) [ some (json_bool b) ↦ some b | _ ↦ none ]

-- if v, ok := ...; ok { field = v }
abbrev pub or_keep {ℓ κ} : {A : Type ℓ} {B : Type κ} → Option A → (A → B) → B → B
or_keep (some a) f old = f a
or_keep none f old = old

-- The connection that HandleWebSocket starts a goroutine for.
unfoldable pub new_connection : ℕ → WebMiner
new_connection now = record {
  id = [];
  user_agent = [];
  threads = 0;
  has_gpu = false;
  version = [];
  hash_rate = 0;
  hashes = 0;
  blocks = 0;
  joined_at = now;
  last_seen = now;
  todo = idle;
  closed = false;
  sent = [];
}

unfoldable pub send_to_miner : Reply → WebMiner → WebMiner
send_to_miner reply miner = record miner { sent = miner.sent ++ reply ∷ [] }

module _ (to_int : Float64 → I64) where
  -- The first part of handleRegister.
  unfoldable pub register_fields : Message → WebMiner → WebMiner
  register_fields msg miner = record miner {
    id = or_keep (text_at (text "minerId") msg) (λ id. id) miner.id;
    user_agent = or_keep (text_at (text "userAgent") msg) (λ ua. ua) miner.user_agent;
    threads = or_keep (number_at (text "threads") msg) to_int miner.threads;
    has_gpu = or_keep (bool_at (text "hasGPU") msg) (λ gpu. gpu) miner.has_gpu;
    version = or_keep (text_at (text "version") msg) (λ ver. ver) miner.version;
  }

  unfoldable pub handle_stats : Message → WebMiner → WebMiner
  handle_stats msg miner = record miner {
    hash_rate = or_keep (number_at (text "hashRate") msg) to_int miner.hash_rate;
    hashes = or_keep (number_at (text "totalHashes") msg) to_int miner.hashes;
    blocks = or_keep (number_at (text "blocksFound") msg) to_int miner.blocks;
  }

  -- The fields that handleSubmit reads with type assertions that panic.
  unfoldable pub submit_fields : Message → Option (I64 × I64 × Text)
  submit_fields msg = elim (number_at (text "blockIndex") msg) [
    | none ↦ none
    | some index ↦ elim (number_at (text "nonce") msg) [
      | none ↦ none
      | some nonce ↦ elim (text_at (text "hash") msg) [
        | none ↦ none
        | some hash ↦ some (to_int index, to_int nonce, hash)
      ]
    ]
  ]

-- What handleSubmit does with the answer of the pool: an accepted block asks for new work.
unfoldable pub settle_submit : Outcome PoolError I64 → WebMiner → Outcome PoolError WebMiner
settle_submit (ok reward) miner = ok (record miner {
  blocks = add64 miner.blocks 1;
  sent =
      miner.sent
      ++ accepted_reply true (text "Block accepted! Reward: " ++ format_int reward) reward ∷ [];
  todo = registering;
})
settle_submit (err e) miner = ok (send_to_miner (accepted_reply false (error_text e) 0) miner)
settle_submit panic miner = panic

unfoldable pub handle_submit :
    (Text → Text)
    → (Float64 → I64)
    → Message
    → ℕ
    → WebMiner
    → MiningPool
    → MiningPool × Outcome PoolError WebMiner
handle_submit sha to_int msg now miner pool = elim (submit_fields to_int msg) [
  | none ↦ (pool, panic)
  | some (index, nonce, hash) ↦
      let (pool', result) = submit_work sha miner.id index nonce hash now pool in
      (pool', settle_submit result miner)
]

-- The second part of handleGetWork, with the answer of the pool.
unfoldable pub offer_block : Outcome PoolError Block → WebMiner → Outcome PoolError WebMiner
offer_block (ok block) miner = ok (record miner {
  sent =
      miner.sent
      ++ work_reply block.index block.previous_hash block.data_text 4 block.timestamp ∷ [];
  todo = idle;
})
offer_block (err e) miner = ok (record miner {
  sent = miner.sent ++ error_reply (text "No work available: " ++ error_text e) ∷ [];
  todo = idle;
})
offer_block panic miner = panic

-- The connections with one of them changed.
unfoldable pub update_at : ℕ → WebMiner → List WebMiner → List WebMiner
update_at i miner [] = []
update_at zero miner (c ∷ cs) = miner ∷ cs
update_at (suc i) miner (c ∷ cs) = c ∷ update_at i miner cs

unfoldable pub set_connection : ℕ → WebMiner → WebSocketHub → WebSocketHub
set_connection i miner hub = record hub { connections = update_at i miner hub.connections }

-- The case of Run for h.register.
unfoldable pub hub_register : ℕ → WebMiner → WebSocketHub → WebSocketHub
hub_register i miner hub = record hub { miners = insert miner.id i hub.miners }

-- The case of Run for h.unregist.
unfoldable pub hub_unregister : ℕ → WebMiner → WebSocketHub → WebSocketHub
hub_unregister i miner hub = elim (lookup miner.id hub.miners) [
  | none ↦ hub
  | some _ ↦
      set_connection i (record miner { closed = true })
        (record hub { miners = delete miner.id hub.miners })
]

-- for _, miner := range h.miners { ... } on the shared objects.
unfoldable pub for_listed : (WebMiner → WebMiner) → Dict ℕ → List WebMiner → List WebMiner
for_listed f [] connections = connections
for_listed f ((id, i) ∷ miners) connections = elim (get_elem? connections i) [
  | none ↦ for_listed f miners connections
  | some miner ↦ for_listed f miners (update_at i (f miner) connections)
]

-- The case of Run for h.broadcast.
unfoldable pub hub_broadcast : Reply → WebSocketHub → WebSocketHub
hub_broadcast reply hub = record hub {
  connections = for_listed (send_to_miner reply) hub.miners hub.connections;
}

-- The case of Run for ctx.Done().
unfoldable pub hub_shutdown : WebSocketHub → WebSocketHub
hub_shutdown hub = record hub {
  connections = for_listed (λ miner. record miner { closed = true }) hub.miners hub.connections;
  running = false;
}
