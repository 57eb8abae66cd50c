-- ===== src/Api/Reads.antt =====
-- server/api.go: the requests that only read, and the check of the token before the dashboard.
-- The chain of the server is the one of its pool. encoding/json writes the body from the value.
use red_team_coin.Base.{
  ℕ, Bool, not, ◌&&◌, Option, none, some, List, [], ◌++◌, map, ltb, if◌then◌else◌, length,
  get_elem?, Text, text, text_eq, I32, I64, is_neg64,
}
use red_team_coin.Outcome.{Outcome, ok, panic, ◌>>=◌}
use red_team_coin.Chain.{Block, ChainError, get_blockchain, validate_chain}
use red_team_coin.Pool.{GpuDeviceInfo, MinerRecord, MiningPool}
use red_team_coin.Pool.Statistics.{
  FloatOps, PoolStats, TotalCpuStats, get_miners, get_pool_stats, get_cpu_stats,
}

pub record MinerResponse : Type 0 where
  pub id : Text
  pub ip_address : Text
  pub ip_address_actual : Text
  pub hostname : Text
  pub registered_at : ℕ
  pub last_heartbeat : ℕ
  pub active : Bool
  pub should_mine : Bool
  pub cpu_throttle_percent : I32
  pub blocks_mined : I64
  pub hash_rate : I64
  pub gpu_devices : List GpuDeviceInfo
  pub gpu_hash_rate : I64
  pub gpu_enabled : Bool
  pub hybrid_mode : Bool

-- The JSON type of a device has the fields of GPUDeviceInfo.
unfoldable pub to_device_response : GpuDeviceInfo → GpuDeviceInfo
to_device_response gpu = record {
  id = gpu.id;
  name = gpu.name;
  kind = gpu.kind;
  memory = gpu.memory;
  compute_units = gpu.compute_units;
  available = gpu.available;
}

unfoldable pub to_miner_response : MinerRecord → MinerResponse
to_miner_response miner = record {
  id = miner.id;
  ip_address = miner.ip_address;
  ip_address_actual = miner.ip_address_actual;
  hostname = miner.hostname;
  registered_at = miner.registered_at;
  last_heartbeat = miner.last_heartbeat;
  active = miner.active;
  should_mine = miner.should_mine;
  cpu_throttle_percent = miner.cpu_throttle_percent;
  blocks_mined = miner.blocks_mined;
  hash_rate = miner.hash_rate;
  gpu_devices = map to_device_response miner.gpu_devices;
  gpu_hash_rate = miner.gpu_hash_rate;
  gpu_enabled = miner.gpu_enabled;
  hybrid_mode = miner.hybrid_mode;
}

-- What writeJSON encodes, with status 200, or another reply.
pub data Page : Type 0 where
  service_unavailable dashboard : Page
  refused : ℕ → Text → Page
  stats_json : PoolStats → Page
  miners_json : List MinerResponse → Page
  blocks_json : List Block → Page
  block_json : Block → Page
  valid_json : Bool → Page
  cpu_json : TotalCpuStats → Page

-- The routes behind the token that only read; a block's route has the path of the request.
pub data ReadRoute : Type 0 where
  stats miners blockchain validate cpu : ReadRoute
  block_at : Text → ReadRoute

-- `visits` is the order in which the handler's loop over the pool's map takes the miners.
module _ (fl : FloatOps) (format : ℕ → Text) (now : ℕ) (visits : List MinerRecord) where
  unfoldable pub handle_stats : MiningPool → Outcome ChainError Page
  handle_stats pool = ok (stats_json (get_pool_stats fl now visits pool))

  unfoldable pub handle_cpu_stats : MiningPool → Outcome ChainError Page
  handle_cpu_stats pool = ok (cpu_json (get_cpu_stats fl format now visits pool))

unfoldable pub handle_miners : List MinerRecord → Outcome ChainError Page
handle_miners visits = ok (miners_json (map to_miner_response (get_miners visits)))

unfoldable pub handle_blockchain : MiningPool → Outcome ChainError Page
handle_blockchain pool = ok (blocks_json (get_blockchain pool.blockchain))

-- `scan` is fmt.Sscanf with "/api/blocks/%d": the number, or none where it does not find one.
unfoldable pub handle_block : (Text → Option I64) → Text → MiningPool → Outcome ChainError Page
handle_block scan path pool = elim (scan path) [
  | none ↦ ok (refused 400 (text "Invalid block index"))
  | some index ↦
      let blocks = get_blockchain pool.blockchain in
      if not (is_neg64 index) && ltb index (length blocks)
      then elim (get_elem? blocks index) [ none ↦ panic | some block ↦ ok (block_json block) ]
      else ok (refused 404 (text "Block not found"))
]

unfoldable pub handle_validate : (Text → Text) → MiningPool → Outcome ChainError Page
handle_validate sha pool = validate_chain sha pool.blockchain >>= λ valid. ok (valid_json valid)

-- What the server has beside its pool.
pub record Reader : Type 0 where
  pub sha : Text → Text
  pub fl : FloatOps
  pub format : ℕ → Text
  pub scan : Text → Option I64
  pub auth_token : Text

module _ (server : Reader) (now : ℕ) (visits : List MinerRecord) where
  unfoldable pub read_handler : ReadRoute → MiningPool → Outcome ChainError Page
  read_handler stats = handle_stats server.fl server.format now visits
  read_handler miners = λ pool. handle_miners visits
  read_handler blockchain = handle_blockchain
  read_handler (block_at path) = handle_block server.scan path
  read_handler validate = handle_validate server.sha
  read_handler cpu = handle_cpu_stats server.fl server.format now visits

  -- authMiddleware around it: the Authorization header is the second argument.
  unfoldable pub read_request : ReadRoute → Text → MiningPool → Outcome ChainError Page
  read_request route authorization pool =
      if not (text_eq authorization (text "Bearer " ++ server.auth_token))
      then ok service_unavailable
      else read_handler route pool

-- handleIndex: the token from the header, or else from the query; an absent one is empty.
unfoldable pub index_token : Text → Text → Text
index_token authorization query_token =
    if text_eq authorization []
    then (if not (text_eq query_token []) then text "Bearer " ++ query_token else authorization)
    else authorization

unfoldable pub handle_index : Text → Text → Text → Page
handle_index auth_token authorization query_token =
    if not (text_eq (index_token authorization query_token) (text "Bearer " ++ auth_token))
    then service_unavailable
    else dashboard
