-- ===== src/PoolLog/Snapshots.antt =====
-- The totals of a snapshot against its miners, and the data that the log file cannot hold.
use mathlib.Core.List.{Perm}
use red_team_coin.Base.{
  ℕ, ◌%◌, ◌^◌, ◌≤◌, ◌≡◌, refl, sym, ap, ◌∙◌, Bool, true, false, ◌||◌, Option, none, some, List, [],
  ◌∷◌, ◌++◌, append_assoc, append-nil, map, arith, leb, if◌then◌else◌, length, Text, Bool-cases,
  text_eq, text_eq_refl, subst, inl, inr,
}
use red_team_coin.Base.Dict.{Dict, lookup, insert, lookup-insert}
use red_team_coin.EventLog.{PoolLogger}
use red_team_coin.Pool.{Float64, MinerRecord, MiningPool}
use red_team_coin.Pool.{with_miner}
use red_team_coin.Pool.Registry.{Heartbeat, set_miner, update_heartbeat_with_gpu}
use red_team_coin.Pool.Statistics.{FloatOps, is_active, for_miners, get_miners, get_pool_stats}
use red_team_coin.Pool.Totals.{sum_over, sum_over-perm, sum_over-map, sum_over-length, one, flag}
use red_team_coin.Pool.Reports.{records, statistics-Reports}
use red_team_coin.PoolLog.{
  MinerLogInfo, PoolSnapshot, LogFile, to_log_info, log_infos, get_pool_snapshot, log_data,
  failed_to_marshal, FileSystem, Files, write_log,
}

log_infos-map :
    (fl : FloatOps) (now : ℕ) (miners : List MinerRecord) (infos : List MinerLogInfo)
    → log_infos fl now miners infos ≡ infos ++ map (to_log_info fl now) miners
unfolding log_infos
log_infos-map fl now [] infos = sym (append-nil infos)
log_infos-map fl now (m ∷ miners) infos =
    log_infos-map fl now miners (infos ++ to_log_info fl now m ∷ [])
    ∙ append_assoc infos (to_log_info fl now m ∷ []) (map (to_log_info fl now) miners)

appended :
    (visits miners : List MinerRecord)
    → for_miners (λ m ms. ms ++ m ∷ []) visits miners ≡ miners ++ visits
unfolding for_miners
appended [] miners = sym (append-nil miners)
appended (m ∷ visits) miners =
    appended visits (miners ++ m ∷ []) ∙ append_assoc miners (m ∷ []) visits

-- The entries of a snapshot are those of the miners that GetMiners visits.
pub snapshot-miners :
    (fl : FloatOps) (now : ℕ) (listed : List MinerRecord) (stats_now : ℕ)
    (visits : List MinerRecord) (pool : MiningPool)
    → (get_pool_snapshot fl now listed stats_now visits pool).miners
      ≡ map (to_log_info fl now) listed
unfolding get_pool_snapshot get_miners
snapshot-miners fl now listed stats_now visits pool =
    log_infos-map fl now (get_miners listed) [] ∙ ap (map (to_log_info fl now)) (appended listed [])

sum_over-records : (miners : Dict MinerRecord) → sum_over one (records miners) ≡ length miners
sum_over-records [] = refl
sum_over-records (e ∷ miners) = omega (arith, sum_over-records miners)

-- A snapshot whose totals are those of its entries.
pub record Agrees (snapshot : PoolSnapshot) : Type 0 where
  pub counted : snapshot.total_miners ≡ length snapshot.miners
  pub active_counted :
      snapshot.active_miners ≡ sum_over (λ m. flag m.active) snapshot.miners % 2 ^ 64
  pub hash_rate_summed :
      snapshot.total_hash_rate
      ≡ sum_over (λ m. if m.active then m.hash_rate else 0) snapshot.miners % 2 ^ 64
  pub blocks_summed :
      snapshot.total_blocks_mined ≡ sum_over (λ m. m.blocks_mined) snapshot.miners % 2 ^ 64

-- Where no call changes the pool between GetMiners and GetPoolStats and the clock does not move on,
-- the totals of a snapshot are those of its entries, in whatever orders the two visit the miners.
pub get_pool_snapshot-Agrees :
    (fl : FloatOps) (now : ℕ) (pool : MiningPool) {listed visits : List MinerRecord}
    → Perm listed (records pool.miners)
    → Perm visits (records pool.miners)
    → Agrees (get_pool_snapshot fl now listed now visits pool)
unfolding get_pool_snapshot get_pool_stats to_log_info is_active
get_pool_snapshot-Agrees fl now pool {listed} {visits} p q =
    let entries = snapshot-miners fl now listed now visits pool in
    let (sums, _) = statistics-Reports fl (λ n. []) now pool q q q in
    let total = λ (f : MinerLogInfo → ℕ).
      ap (λ ms. sum_over f ms) entries
      ∙ sum_over-map f (to_log_info fl now) listed
      ∙ sum_over-perm (λ m. f (to_log_info fl now m)) p in
    record {
      counted = sym (sum_over-records pool.miners) ∙ sym (total (λ m. 1)) ∙ sum_over-length _;
      active_counted =
          sums.active_in_stats
          ∙ sums.active_counted
          ∙ ap (λ (n : ℕ). n % 2 ^ 64) (sym (total (λ m. flag m.active)));
      hash_rate_summed =
          sums.hash_rate_summed
          ∙ ap (λ (n : ℕ). n % 2 ^ 64) (sym (total (λ m. if m.active then m.hash_rate else 0)));
      blocks_summed =
          sums.blocks_summed ∙ ap (λ (n : ℕ). n % 2 ^ 64) (sym (total (λ m. m.blocks_mined)));
    }

-- encoding/json has no text for a float64 that is not a number or is infinite.
abbrev pub is_unencodable : Float64 → Bool
is_unencodable x = leb 0x7ff0_0000_0000_0000 (x % 2 ^ 63)

abbrev pub has_unencodable : List MinerLogInfo → Bool
has_unencodable [] = false
has_unencodable (m ∷ ms) = is_unencodable m.cpu_usage_percent || has_unencodable ms

unencodable : MinerRecord → ℕ
unencodable m = flag (is_unencodable m.cpu_usage_percent)

has_unencodable-sum :
    (fl : FloatOps) (now : ℕ) (ms : List MinerRecord)
    → 1 ≤ sum_over unencodable ms
    → has_unencodable (map (to_log_info fl now) ms) ≡ true
unfolding unencodable to_log_info
has_unencodable-sum fl now [] h = absurd (omega arith)
has_unencodable-sum fl now (m ∷ ms) h = ground (arith, has_unencodable-sum fl now ms)

lookup-unencodable :
    (id : Text) (miners : Dict MinerRecord) {miner : MinerRecord}
    → lookup id miners ≡ some miner
    → is_unencodable miner.cpu_usage_percent ≡ true
    → 1 ≤ sum_over unencodable (records miners)
unfolding lookup unencodable
lookup-unencodable id [] e h = absurd (cc)
lookup-unencodable id ((j, m) ∷ miners) {miner} e h = elim (Bool-cases (text_eq j id)) [
  | inl hit ↦
      let same : m ≡ miner = ground arith in
      let bad : is_unencodable m.cpu_usage_percent ≡ true =
        subst (λ r. is_unencodable r.cpu_usage_percent ≡ true) (sym same) h in
      ground (arith, bad)
  | inr miss ↦ omega (arith, lookup-unencodable id miners (rw miss at e) h)
]

heartbeat-unencodable :
    (id : Text) (beat : Heartbeat) (now : ℕ) (pool : MiningPool) {miner : MinerRecord}
    → lookup id pool.miners ≡ some miner
    → is_unencodable beat.cpu_usage ≡ true
    → 1 ≤ sum_over unencodable (records (update_heartbeat_with_gpu id beat now pool).0.miners)
unfolding update_heartbeat_with_gpu with_miner set_miner
heartbeat-unencodable id beat now pool {miner} e bad =
    let beaten : MinerRecord = record miner {
      last_heartbeat = now;
      hash_rate = beat.hash_rate;
      cpu_usage_percent = beat.cpu_usage;
      total_hashes = beat.total_hashes;
      total_mining_time = beat.mining_time;
      gpu_devices = beat.gpu_devices;
      gpu_hash_rate = beat.gpu_hash_rate;
      gpu_enabled = beat.gpu_enabled;
      hybrid_mode = beat.hybrid_mode;
    } in
    let found : lookup id (insert id beaten pool.miners) ≡ some beaten =
      rw (lookup-insert id id beaten pool.miners, text_eq_refl id) refl in
    rw (e, with_miner)
      (lookup-unencodable id (insert id beaten pool.miners) {miner = beaten} found bad)

-- After a heartbeat in which a registered miner reports a CPU usage that is infinite or not a
-- number, WriteLog fails before it writes, whatever else the snapshot holds, if encoding/json
-- refuses every file with such a number among its miners.
pub heartbeat-write_log :
    (fl : FloatOps) (fs : FileSystem) (marshal : LogFile → Option Text)
    → ((entry : LogFile)
        → has_unencodable entry.current_snapshot.miners ≡ true
        → marshal entry ≡ none)
    → (id : Text) (beat : Heartbeat) (now : ℕ) (pool : MiningPool) {miner : MinerRecord}
    → lookup id pool.miners ≡ some miner
    → is_unencodable beat.cpu_usage ≡ true
    → {listed : List MinerRecord}
    → Perm listed (records (update_heartbeat_with_gpu id beat now pool).0.miners)
    → (later stats_now : ℕ) (visits : List MinerRecord) (stats_pool : MiningPool)
      (logger : PoolLogger) (files : Files)
    → write_log fs marshal logger.log_file
        (log_data fl later logger (get_pool_snapshot fl later listed stats_now visits stats_pool))
        files
      ≡ record { between = []; after = files; error = some failed_to_marshal }
unfolding write_log log_data get_pool_snapshot
heartbeat-write_log fl fs marshal refuses id beat now pool {miner} e bad {listed} p later stats_now
      visits stats_pool logger files =
    let snapshot = get_pool_snapshot fl later listed stats_now visits stats_pool in
    let many : 1 ≤ sum_over unencodable listed =
      subst (λ n. 1 ≤ n) (sym (sum_over-perm unencodable p))
        (heartbeat-unencodable id beat now pool e bad) in
    let listed_bad = has_unencodable-sum fl later listed many in
    let bad_entry : has_unencodable snapshot.miners ≡ true =
      subst (λ ms. has_unencodable ms ≡ true)
        (sym (snapshot-miners fl later listed stats_now visits stats_pool)) listed_bad in
    rw (refuses (log_data fl later logger snapshot) bad_entry, write_log) refl
