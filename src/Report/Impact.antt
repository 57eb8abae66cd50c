-- ===== src/Report/Impact.antt =====
-- analyzeImpact: the miners of the events, the entries of the snapshot, and the report's totals.
-- The map of miners holds pointers; each is written through at once, so the map holds values here.
use red_team_coin.Base.{
  ℕ, ◌-◌, ◌^◌, Bool, true, false, not, ◌&&◌, Option, none, some, List, [], ◌∷◌, ◌++◌, ltb, leb,
  if◌then◌else◌, length, Text, text, text_eq, I64, add64, lt64,
}
use red_team_coin.Base.Dict.{Dict, lookup, insert}
use red_team_coin.EventLog.{LogEntry}
use red_team_coin.Pool.{Float64}
use red_team_coin.Report.{
  FloatOps, MinerLogInfo, LogFile, MinerImpactStats, SystemImpactReport, avg_cpu_power_watts,
  avg_gpu_power_watts, hybrid_power_watts, electricity_cost_per, high_cpu_threshold,
}
use red_team_coin.Report.Format.{format_duration, get_compute_impact}

-- &MinerImpactStats{MinerID: ..., FirstSeen: ..., LastSeen: ...}
unfoldable pub new_stats : Text → ℕ → ℕ → MinerImpactStats
new_stats miner_id first_seen last_seen = record {
  miner_id = miner_id;
  hostname = [];
  ip_address = [];
  ip_address_actual = [];
  first_seen = first_seen;
  last_seen = last_seen;
  total_mining_time = 0;
  total_hashes = 0;
  blocks_mined = 0;
  avg_cpu_usage = 0;
  peak_cpu_usage = 0;
  gpu_enabled = false;
  hybrid_mode = false;
  estimated_cpu_hours = 0;
  estimated_kwh = 0;
  estimated_cost = 0;
  compute_impact = [];
  mining_type = [];
}

-- The branch of a miner that an earlier event named.
unfoldable pub see_again : ℕ → MinerImpactStats → MinerImpactStats
see_again timestamp stats = record stats {
  first_seen = if ltb timestamp stats.first_seen then timestamp else stats.first_seen;
  last_seen = if ltb stats.last_seen timestamp then timestamp else stats.last_seen;
}

unfoldable pub seen_at : Text → ℕ → Option MinerImpactStats → MinerImpactStats
seen_at miner_id timestamp none = new_stats miner_id timestamp timestamp
seen_at miner_id timestamp (some stats) = see_again timestamp stats

unfoldable pub collect_event : LogEntry → Dict MinerImpactStats → Dict MinerImpactStats
collect_event event miner_map =
    if text_eq event.miner_id []
    then miner_map
    else insert event.miner_id
        (seen_at event.miner_id event.timestamp (lookup event.miner_id miner_map)) miner_map

unfoldable pub collect_from : List LogEntry → Dict MinerImpactStats → Dict MinerImpactStats
collect_from [] miner_map = miner_map
collect_from (event ∷ events) miner_map = collect_from events (collect_event event miner_map)

unfoldable pub collect_miners_from_events : List LogEntry → Dict MinerImpactStats
collect_miners_from_events events = collect_from events []

unfoldable pub get_or_create_miner_stats : MinerLogInfo → Dict MinerImpactStats → MinerImpactStats
get_or_create_miner_stats miner miner_map = elim (lookup miner.id miner_map) [
  | none ↦ new_stats miner.id miner.registered_at miner.last_heartbeat
  | some stats ↦ stats
]

unfoldable pub determine_mining_type : Bool → Bool → Text
determine_mining_type gpu_enabled hybrid_mode =
    if gpu_enabled && hybrid_mode
    then text "CPU+GPU Hybrid"
    else if gpu_enabled
    then text "GPU Only"
    else text "CPU Only"

-- A map to bool that is only ever set to true.
abbrev pub TextSet : Type 0
TextSet = Dict Bool

unfoldable pub track_hosts : MinerLogInfo → TextSet → TextSet
track_hosts miner unique_hosts = insert miner.hostname true unique_hosts

unfoldable pub track_ips : MinerLogInfo → TextSet → TextSet
track_ips miner unique_ips =
    let with_reported =
      if text_eq miner.ip_address [] then unique_ips else insert miner.ip_address true unique_ips in
    if not (text_eq miner.ip_address_actual [])
      && not (text_eq miner.ip_address_actual miner.ip_address)
    then insert miner.ip_address_actual true with_reported
    else with_reported

-- The variables that processSnapshotData changes.
pub record Analysis : Type 0 where
  pub miner_map : Dict MinerImpactStats
  pub unique_hosts : TextSet
  pub unique_ips : TextSet
  pub report : SystemImpactReport

-- if test { counter++ }
abbrev pub count_if : Bool → I64 → I64
count_if test counter = if test then add64 counter 1 else counter

-- report.MinerStats = append(report.MinerStats, *stats)
unfoldable pub append_stats : MinerImpactStats → SystemImpactReport → SystemImpactReport
append_stats stats report = record report { miner_stats = report.miner_stats ++ stats ∷ [] }

module _ (fl : FloatOps) where
  unfoldable pub calculate_power_watts : MinerLogInfo → Float64
  calculate_power_watts miner =
      let power_watts =
        if miner.hybrid_mode
        then hybrid_power_watts
        else if miner.gpu_enabled
        then avg_gpu_power_watts
        else avg_cpu_power_watts in
      if not miner.gpu_enabled
      then fl.mul power_watts (fl.div miner.cpu_usage_percent 0x4059_0000_0000_0000)
      else power_watts

  -- time.Duration(miner.TotalMiningTime * float64(time.Second)), and the kWh of 1000.0 Wh each.
  unfoldable pub update_miner_stats : MinerLogInfo → MinerImpactStats → MinerImpactStats
  update_miner_stats miner stats =
      let time = fl.to_int (fl.mul miner.total_mining_time 0x41cd_cd65_0000_0000) in
      let cpu_hours = fl.hours time in
      let kwh = fl.div (fl.mul (calculate_power_watts miner) cpu_hours) 0x408f_4000_0000_0000 in
      record stats {
        hostname = miner.hostname;
        ip_address = miner.ip_address;
        ip_address_actual = miner.ip_address_actual;
        total_mining_time = time;
        total_hashes = miner.total_hashes;
        blocks_mined = miner.blocks_mined;
        avg_cpu_usage = miner.cpu_usage_percent;
        peak_cpu_usage = miner.cpu_usage_percent;
        gpu_enabled = miner.gpu_enabled;
        hybrid_mode = miner.hybrid_mode;
        mining_type = determine_mining_type miner.gpu_enabled miner.hybrid_mode;
        estimated_cpu_hours = cpu_hours;
        estimated_kwh = kwh;
        estimated_cost = fl.mul kwh electricity_cost_per;
        compute_impact = get_compute_impact fl miner.cpu_usage_percent;
      }

  unfoldable pub update_report_totals :
      MinerImpactStats → MinerLogInfo → SystemImpactReport → SystemImpactReport
  update_report_totals stats miner report = record report {
    total_mining_hours = fl.add report.total_mining_hours (fl.hours stats.total_mining_time);
    total_hashes = add64 report.total_hashes miner.total_hashes;
    total_blocks_mined = add64 report.total_blocks_mined miner.blocks_mined;
    total_estimated_kwh = fl.add report.total_estimated_kwh stats.estimated_kwh;
    total_estimated_cost = fl.add report.total_estimated_cost stats.estimated_cost;
    miners_with_high_cpu =
        count_if (fl.ge miner.cpu_usage_percent high_cpu_threshold) report.miners_with_high_cpu;
    miners_with_gpu = count_if miner.gpu_enabled report.miners_with_gpu;
    miners_with_hybrid = count_if miner.hybrid_mode report.miners_with_hybrid;
  }

  -- One round of the loop in processSnapshotData.
  unfoldable pub process_miner : MinerLogInfo → Analysis → Analysis
  process_miner miner a =
      let stats = update_miner_stats miner (get_or_create_miner_stats miner a.miner_map) in
      record {
        miner_map = insert miner.id stats a.miner_map;
        unique_hosts = track_hosts miner a.unique_hosts;
        unique_ips = track_ips miner a.unique_ips;
        report = append_stats stats (update_report_totals stats miner a.report);
      }

  unfoldable pub process_snapshot_data : List MinerLogInfo → Analysis → Analysis
  process_snapshot_data [] a = a
  process_snapshot_data (miner ∷ miners) a = process_snapshot_data miners (process_miner miner a)

  -- totalCPU and maxCPU.
  unfoldable pub cpu_loop : List MinerImpactStats → Float64 → Float64 → Float64 × Float64
  cpu_loop [] total max = (total, max)
  cpu_loop (stats ∷ rest) total max =
      cpu_loop rest (fl.add total stats.avg_cpu_usage)
        (if fl.gt stats.peak_cpu_usage max then stats.peak_cpu_usage else max)

  -- The comparison of sort.Slice.
  unfoldable pub costs_more : MinerImpactStats → MinerImpactStats → Bool
  costs_more a b = fl.gt a.estimated_cost b.estimated_cost

-- sort.Slice on a slice of miners.
abbrev pub SortSlice : Type 0
SortSlice =
    (MinerImpactStats → MinerImpactStats → Bool) → List MinerImpactStats → List MinerImpactStats

-- end.Sub(start), which stops at the ends of the range of int64.
unfoldable pub sub_time : ℕ → ℕ → I64
sub_time end start =
    if leb start end
    then (if ltb (end - start) (2 ^ 63) then end - start else 2 ^ 63 - 1)
    else if ltb (start - end) (2 ^ 63)
    then 2 ^ 64 - (start - end)
    else 2 ^ 63

module _ (fl : FloatOps) where
  -- The report before the miners are counted.
  unfoldable pub new_report : ℕ → LogFile → SystemImpactReport
  new_report now log_data = record {
    report_generated_at = now;
    analysis_period = format_duration fl (sub_time log_data.last_update log_data.server_start_time);
    start_date = log_data.server_start_time;
    end_date = log_data.last_update;
    total_miners = 0;
    unique_hosts = 0;
    unique_ips = 0;
    total_mining_hours = 0;
    total_hashes = 0;
    total_blocks_mined = 0;
    total_estimated_kwh = 0;
    total_estimated_cost = 0;
    avg_system_cpu_usage = 0;
    peak_system_cpu_usage = 0;
    miners_with_high_cpu = 0;
    miners_with_gpu = 0;
    miners_with_hybrid = 0;
    miner_stats = [];
  }

  unfoldable pub processed : ℕ → LogFile → Analysis
  processed now log_data = process_snapshot_data fl log_data.current_snapshot.miners (record {
    miner_map = collect_miners_from_events log_data.events;
    unique_hosts = [];
    unique_ips = [];
    report = new_report now log_data;
  })

module _ (fl : FloatOps) (sort_slice : SortSlice) where
  unfoldable pub finalize_report : TextSet → TextSet → SystemImpactReport → SystemImpactReport
  finalize_report unique_hosts unique_ips report =
      let count = length report.miner_stats in
      let (total_cpu, max_cpu) = cpu_loop fl report.miner_stats 0 0 in
      record report {
        total_miners = count;
        unique_hosts = length unique_hosts;
        unique_ips = length unique_ips;
        avg_system_cpu_usage =
            if lt64 0 count
            then fl.div total_cpu (fl.of_int count)
            else report.avg_system_cpu_usage;
        peak_system_cpu_usage = if lt64 0 count then max_cpu else report.peak_system_cpu_usage;
        miner_stats = sort_slice (costs_more fl) report.miner_stats;
      }

  unfoldable pub analyze_impact : ℕ → LogFile → SystemImpactReport
  analyze_impact now log_data =
      let a = processed fl now log_data in finalize_report a.unique_hosts a.unique_ips a.report
