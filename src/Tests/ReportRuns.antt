-- ===== src/Tests/ReportRuns.antt =====
-- The theorems of the log file and of the report on a small pool.
use mathlib.Core.List.{Perm}
use mathlib.Core.List.Perm as Permutation
use red_team_coin.Base.{
  ℕ, ◌+◌, ◌*◌, ◌/◌, ◌≡◌, refl, Bool, true, Option, none, some, List, [], ◌∷◌, map, arith, leb, ltb,
  if◌then◌else◌, text_eq, text_eq_iff, Text, text, format_int,
}
use red_team_coin.EventLog.{LogEntry, PoolLogger, new_pool_logger}
use red_team_coin.Pool.{MinerRecord}
use red_team_coin.Pool.Registry.{Heartbeat, update_heartbeat_with_gpu}
use red_team_coin.Pool.Statistics.{get_pool_stats}
use red_team_coin.Pool.Statistics as Statistics
use red_team_coin.Pool.Reports.{records}
use red_team_coin.PoolLog.{
  FileSystem, Files, failed_to_marshal, get_pool_snapshot, log_data, write_log,
}
use red_team_coin.PoolLog as PoolLog
use red_team_coin.PoolLog.Writes.{KeepsFileLaws, IsAtomic, write_log-IsAtomic}
use red_team_coin.PoolLog.Snapshots.{has_unencodable, heartbeat-write_log}
use red_team_coin.Report.{FloatOps, MinerLogInfo, LogFile}
use red_team_coin.Report.Impact.{SortSlice, analyze_impact}
use red_team_coin.Report.Output.{holds, template_data}
use red_team_coin.Report.Totals.{Permutes, Covers, analyze_impact-Covers}
use red_team_coin.Report.Kinds.{Shows, template_data-Shows}
use red_team_coin.Report.Spans.{span_of, logged_span, analyze_impact-spans}
use red_team_coin.Report.Pipeline.{read_log, found, Tells, write_log-report}
use red_team_coin.Tests.Sample.{alice, lab, lab-alice}

-- Whole numbers stand in for the floats.
abbrev toy_floats : FloatOps
toy_floats = record {
  add = λ x y. x + y;
  mul = λ x y. x * y;
  div = λ x y. x / y;
  ge = λ x y. leb y x;
  gt = λ x y. ltb y x;
  of_int = λ n. n;
  to_int = λ x. x;
  fixed = λ decimals x. format_int x;
  hours = λ n. n / 3600;
  minutes = λ n. n / 60;
}

abbrev server_floats : Statistics.FloatOps
server_floats = record {
  add = λ x y. x + y;
  div = λ x y. x / y;
  of_int = λ n. n;
  seconds = λ n. n;
  hours = λ n. n / 3600;
}

abbrev as_it_is : SortSlice
as_it_is less miners = miners

as_it_is-Permutes : Permutes as_it_is
as_it_is-Permutes less miners = Permutation.refl miners

-- Files that can always be written and renamed.
abbrev disk : FileSystem
disk = record {
  write_file =
      λ path content files. ((λ p. if text_eq p path then some content else files p), true);
  rename = λ old new files.
      ((λ p. if text_eq p new then files old else if text_eq p old then none else files p), true);
}

disk-KeepsFileLaws : KeepsFileLaws disk
disk-KeepsFileLaws = record {
  write_elsewhere = λ path content p files h. ground (arith, text_eq_iff p path);
  write_done = λ path content files h. ground (arith, text_eq_iff path path);
  rename_failed = λ old new p files h. absurd (cc);
  rename_done = λ old new files h. ground (arith, text_eq_iff new new);
  rename_elsewhere = λ old new p files h k. ground (arith, text_eq_iff p new, text_eq_iff p old);
}

abbrev logger : PoolLogger
logger = new_pool_logger (text "pool_log.json") 30 500

abbrev entry : PoolLog.LogFile
entry =
    log_data server_floats 3000 logger
      (get_pool_snapshot server_floats 3000 (records lab.miners) 3000 (records lab.miners) lab)

abbrev encode : PoolLog.LogFile → Option Text
encode l = some (text "{}")

abbrev no_files : Files
no_files p = none

write_log-IsAtomic_example :
    IsAtomic encode
      (text "pool_log.json")
      entry
      no_files
      (write_log disk encode (text "pool_log.json") entry no_files)
write_log-IsAtomic_example =
    write_log-IsAtomic disk-KeepsFileLaws encode (text "pool_log.json") entry no_files

write_log-report_example :
    (log : LogFile) × (found
        (λ content. holds (read_log entry))
        ((write_log disk encode logger.log_file entry no_files).after logger.log_file)
      ≡ holds log)
    × Tells lab
        (get_pool_stats server_floats 3000 (records lab.miners) lab)
        (analyze_impact toy_floats as_it_is 9000 log)
unfolding write_log PoolLog.rename_log
write_log-report_example =
    write_log-report toy_floats server_floats as_it_is as_it_is-Permutes disk-KeepsFileLaws encode
      (λ content. holds (read_log entry)) 3000 9000 logger lab no_files
      (Permutation.refl (records lab.miners)) (Permutation.refl (records lab.miners))
      (λ content e. refl) refl

-- A report of a CPU usage that is not a number.
abbrev bad_beat : Heartbeat
bad_beat = record {
  hash_rate = 10;
  cpu_usage = 0x7ff8_0000_0000_0000;
  total_hashes = 100;
  mining_time = 60;
  gpu_devices = [];
  gpu_hash_rate = 0;
  gpu_enabled = Bool.false;
  hybrid_mode = Bool.false;
}

-- An encoder that refuses numbers that are none.
abbrev strict : PoolLog.LogFile → Option Text
strict l = if has_unencodable l.current_snapshot.miners then none else some (text "{}")

strict-refuses :
    (l : PoolLog.LogFile) → has_unencodable l.current_snapshot.miners ≡ true → strict l ≡ none
strict-refuses l h = rw h refl

abbrev after_beat : List MinerRecord
after_beat = records (update_heartbeat_with_gpu alice bad_beat 4000 lab).0.miners

heartbeat-write_log_example :
    write_log disk strict logger.log_file
      (log_data server_floats 5000 logger
        (get_pool_snapshot server_floats 5000 after_beat 5000 after_beat lab))
      no_files
    ≡ record { between = []; after = no_files; error = some failed_to_marshal }
heartbeat-write_log_example =
    heartbeat-write_log server_floats disk strict strict-refuses alice bad_beat 4000 lab lab-alice
      refl (Permutation.refl after_beat) 5000 5000 after_beat lab logger no_files

abbrev dotted : LogEntry
dotted = record {
  timestamp = 800;
  event_type = text "miner_paused";
  miner_id = text "m1";
  details = [];
  message = text "Miner paused";
}

abbrev shown_miner : Text → Bool → Bool → ℕ → MinerLogInfo
shown_miner id gpu hybrid usage = record {
  id = id;
  ip_address = text "10.0.0.7";
  ip_address_actual = text "10.0.0.7";
  hostname = text "lab-7";
  registered_at = 1000;
  last_heartbeat = 2000;
  active = true;
  should_mine = true;
  cpu_throttle_percent = 0;
  blocks_mined = 2;
  hash_rate = 10;
  cpu_usage_percent = usage;
  total_hashes = 100;
  total_mining_time = 60;
  gpu_enabled = gpu;
  gpu_hash_rate = 0;
  hybrid_mode = hybrid;
}

abbrev logged : LogFile
logged = record {
  server_start_time = 500;
  server_uptime = 2500;
  last_update = 3000;
  events = dotted ∷ [];
  current_snapshot = record {
    timestamp = 3000;
    total_miners = 2;
    active_miners = 2;
    total_hash_rate = 20;
    total_blocks_mined = 4;
    blockchain_height = 5;
    difficulty = 3;
    miners =
        shown_miner (text "m1") true true 0x4056_8000_0000_0000
        ∷ shown_miner (text "m2") Bool.false Bool.false 0x4049_0000_0000_0000
        ∷ [];
  };
}

analyze_impact-Covers_example :
    Covers toy_floats logged.current_snapshot.miners
      (analyze_impact toy_floats as_it_is 9000 logged)
analyze_impact-Covers_example =
    analyze_impact-Covers toy_floats as_it_is 9000 logged as_it_is-Permutes

template_data-Shows_example :
    Shows toy_floats
      (analyze_impact toy_floats as_it_is 9000 logged)
      (template_data toy_floats (analyze_impact toy_floats as_it_is 9000 logged))
template_data-Shows_example =
    template_data-Shows toy_floats as_it_is 9000 logged as_it_is-Permutes refl

analyze_impact-spans_example :
    Perm
      (map span_of (analyze_impact toy_floats as_it_is 9000 logged).miner_stats)
      (map (logged_span logged.events) logged.current_snapshot.miners)
unfolding text_eq
analyze_impact-spans_example =
    analyze_impact-spans toy_floats as_it_is 9000 logged as_it_is-Permutes refl
