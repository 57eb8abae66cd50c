-- ===== src/Report/Pipeline.antt =====
-- From the server's pool to the report, through the log file.
use mathlib.Core.List.{Perm}
use red_team_coin.Base.{
  ℕ, ◌+◌, ◌-◌, ◌%◌, ◌^◌, ◌≡◌, sym, ap, ◌∙◌, Option, none, some, List, [], map, if◌then◌else◌,
  is_neg32, length, length-map, inl, inr, Option-cases, Text, I64,
}
use red_team_coin.EventLog.{PoolLogger}
use red_team_coin.Pool.{MinerRecord, MiningPool}
use red_team_coin.Pool.Statistics.{get_pool_stats}
use red_team_coin.Pool.Statistics as Statistics
use red_team_coin.Pool.Totals.{sum_over, sum_over-map, sum_over-perm}
use red_team_coin.Pool.Reports.{records, statistics-Reports}
use red_team_coin.PoolLog.{to_log_info, get_pool_snapshot, log_data, Files, FileSystem, write_log}
use red_team_coin.PoolLog as PoolLog
use red_team_coin.PoolLog.Writes.{KeepsFileLaws, write_log-IsAtomic}
use red_team_coin.PoolLog.Snapshots.{snapshot-miners, get_pool_snapshot-Agrees}
use red_team_coin.Report.{FloatOps, MinerLogInfo, PoolSnapshot, LogFile, SystemImpactReport}
use red_team_coin.Report.Impact.{SortSlice, analyze_impact}
use red_team_coin.Report.Output.{LogSource, not_there, holds}
use red_team_coin.Report.Totals.{Permutes, analyze_impact-Covers}

-- int64 of an int32.
abbrev pub widen32 : ℕ → I64
widen32 a = if is_neg32 a then (a + (2 ^ 64 - 2 ^ 32)) % 2 ^ 64 else a

-- The tool's struct with the values of the server's.
abbrev pub read_miner : PoolLog.MinerLogInfo → MinerLogInfo
read_miner m = record {
  id = m.id;
  ip_address = m.ip_address;
  ip_address_actual = m.ip_address_actual;
  hostname = m.hostname;
  registered_at = m.registered_at;
  last_heartbeat = m.last_heartbeat;
  active = m.active;
  should_mine = m.should_mine;
  cpu_throttle_percent = widen32 m.cpu_throttle_percent;
  blocks_mined = m.blocks_mined;
  hash_rate = m.hash_rate;
  cpu_usage_percent = m.cpu_usage_percent;
  total_hashes = m.total_hashes;
  total_mining_time = m.total_mining_time;
  gpu_enabled = m.gpu_enabled;
  gpu_hash_rate = m.gpu_hash_rate;
  hybrid_mode = m.hybrid_mode;
}

abbrev pub read_snapshot : PoolLog.PoolSnapshot → PoolSnapshot
read_snapshot s = record {
  timestamp = s.timestamp;
  total_miners = s.total_miners;
  active_miners = s.active_miners;
  total_hash_rate = s.total_hash_rate;
  total_blocks_mined = s.total_blocks_mined;
  blockchain_height = s.blockchain_height;
  difficulty = widen32 s.difficulty;
  miners = map read_miner s.miners;
}

abbrev pub read_log : PoolLog.LogFile → LogFile
read_log l = record {
  server_start_time = l.server_start_time;
  server_uptime = l.server_uptime;
  last_update = l.last_update;
  events = l.events;
  current_snapshot = read_snapshot l.current_snapshot;
}

-- What the tool finds in a file with this content.
abbrev pub found : (Text → LogSource) → Option Text → LogSource
found decode none = not_there
found decode (some content) = decode content

-- A report with the totals of the pool.
pub record Tells (pool : MiningPool) (stats : Statistics.PoolStats) (report : SystemImpactReport)
    : Type 0 where
  pub miners_told : report.total_miners ≡ length pool.miners
  pub hashes_told : report.total_hashes ≡ stats.total_hashes
  pub blocks_told : report.total_blocks_mined ≡ stats.total_blocks_mined

-- The tool's totals over a snapshot that no call came into.
module _ (fl : FloatOps) (server_fl : Statistics.FloatOps) (sort_slice : SortSlice)
    (permutes : Permutes sort_slice) where
  analyze_impact-Tells :
      (now later : ℕ) (logger : PoolLogger) (pool : MiningPool) {listed visits : List MinerRecord}
      → Perm listed (records pool.miners)
      → Perm visits (records pool.miners)
      → Tells pool (get_pool_stats server_fl now visits pool) (
          analyze_impact fl sort_slice later (
            read_log (
              log_data server_fl now logger
                (get_pool_snapshot server_fl now listed now visits pool))))
  unfolding log_data to_log_info get_pool_snapshot get_pool_stats
  analyze_impact-Tells now later logger pool {listed} {visits} p q =
      let snapshot = get_pool_snapshot server_fl now listed now visits pool in
      let entry = read_log (log_data server_fl now logger snapshot) in
      let covers = analyze_impact-Covers fl sort_slice later entry permutes in
      let agrees = get_pool_snapshot-Agrees server_fl now pool p q in
      let entries = snapshot-miners server_fl now listed now visits pool in
      let (sums, _) = statistics-Reports server_fl (λ n. []) now pool q q q in
      let hashes =
        sum_over-map (λ m. m.total_hashes) read_miner snapshot.miners
        ∙ ap (λ ms. sum_over (λ m. m.total_hashes) ms) entries
        ∙ sum_over-map (λ m. m.total_hashes) (to_log_info server_fl now) listed
        ∙ sum_over-perm (λ m. m.total_hashes) p in
      record {
        miners_told = covers.counted ∙ length-map read_miner snapshot.miners ∙ sym agrees.counted;
        hashes_told =
            covers.hashes_summed ∙ ap (λ (n : ℕ). n % 2 ^ 64) hashes ∙ sym sums.hashes_summed;
        blocks_told =
            covers.blocks_summed
            ∙ ap (λ (n : ℕ). n % 2 ^ 64)
                (sum_over-map (λ m. m.blocks_mined) read_miner snapshot.miners)
            ∙ sym agrees.blocks_summed;
      }

  -- After a WriteLog without an error, the tool reads the log file and reports the pool's number of
  -- miners and the totals of hashes and blocks that GetPoolStats has, where package os keeps its
  -- laws, decoding the text that was encoded gives its values, no call changes the pool while
  -- the snapshot is taken, and sort.Slice only changes the order.
  pub write_log-report :
      {fs : FileSystem}
      → KeepsFileLaws fs
      → (marshal : PoolLog.LogFile → Option Text) (decode : Text → LogSource)
      → (now later : ℕ) (logger : PoolLogger) (pool : MiningPool) (files : Files)
        {listed visits : List MinerRecord}
      → Perm listed (records pool.miners)
      → Perm visits (records pool.miners)
      → let l =
          log_data server_fl now logger (get_pool_snapshot server_fl now listed now visits pool) in
        let w = write_log fs marshal logger.log_file l files in
        ((content : Text) → marshal l ≡ some content → decode content ≡ holds (read_log l))
        → w.error ≡ none
        → (log : LogFile) × (found decode (w.after logger.log_file) ≡ holds log)
          × Tells pool
              (get_pool_stats server_fl now visits pool)
              (analyze_impact fl sort_slice later log)
  write_log-report {fs} laws marshal decode now later logger pool files {listed} {visits} p q round
        done =
      let l =
        log_data server_fl now logger (get_pool_snapshot server_fl now listed now visits pool) in
      let told = analyze_impact-Tells now later logger pool p q in
      elim ((write_log-IsAtomic laws marshal logger.log_file l files).whole) [
        | inr (failed, e) ↦ absurd (failed done)
        | inl (fine, marshals, e) ↦ elim (Option-cases (marshal l)) [
          | inl refused ↦ absurd (marshals refused)
          | inr (content, encoded) ↦
              (read_log l, ap (found decode) (e ∙ encoded) ∙ round content encoded, told)
        ]
      ]
