-- ===== src/Tests/MinerRuns.antt =====
-- The theorems of the client's Miner on small inputs.
use red_team_coin.Base.{
  ℕ, ◌+◌, ◌*◌, ◌/◌, ◌≡◌, ◌⊎◌, refl, Bool, true, false, some, none, List, [], ◌∷◌, arith, text,
  text_eq,
}
use red_team_coin.Base.Dict.{lookup, insert}
use red_team_coin.Config.{
  ClientConfig, GpuConfig, MiningConfig, second, validate_client, is_empty, is_bad_level,
  is_bad_format,
}
use red_team_coin.Pool.{MinerRecord, report, new_mining_pool}
use red_team_coin.Pool.Registry.{
  new_miner, set_miner, register_miner, pause_miner, resume_miner, delete_miner,
}
use red_team_coin.Pool.System.{start_system, run, step}
use red_team_coin.Rpc.Control.{deleted_reply}
use red_team_coin.Gpu.Search.{cancelled}
use red_team_coin.Miner as Miner
use red_team_coin.Miner.{
  Miner, Effort, Doing, resting, fetching, ended, start, begin_round, clamp_to_int32,
}
use red_team_coin.Miner.Steps.{
  MinerEvent, begins, gets_work, searches, submits, gets_verdict, beats, gets_heartbeat, stops,
  miner_run,
}
use red_team_coin.Miner.Handled.{is_natural, all_natural}
use red_team_coin.Miner.Honest.{IsHonest, miner_run-IsHonest}
use red_team_coin.Miner.Control.{
  Follows, IsDeleted, heartbeat_exchange, heartbeat_exchange_cases, exchange-begin_round,
}
use red_team_coin.Miner.Connect.{
  Attempt, IsClock, Ended, connect_with_retry, connect_with_retry-ends,
}
use red_team_coin.Miner.Removal.{
  Process, absent, self_delete, go_on_all, end_process, handle_shutdown,
}
use red_team_coin.Miner.Kept.{self_delete-end_process}
use red_team_coin.Tests.Sample.{toy_sha, alice, lab, lab-IsSound}
use red_team_coin.Tests.GpuRuns.{toy_kernel, no_kernel, one_card, gpu_job}

abbrev gpu_settings : GpuConfig
gpu_settings = record { nonce_range = 1000; cpu_start_nonce = 5000 }

abbrev gpu_only : MiningConfig
gpu_only = record { gpu_enabled = true; hybrid_mode = false; auto_delete = true }

abbrev two_rounds : Effort
two_rounds = record { schedule = []; rounds = 2; race = cancelled; measured = some 900 }

-- The client mines a block and hears that it has been deleted while it searches the next one.
abbrev day : List MinerEvent
day =
    begins
    ∷ gets_work (some gpu_job)
    ∷ searches two_rounds
    ∷ submits
    ∷ gets_verdict (some (record { accepted = true; message = []; reward = 50 }))
    ∷ begins
    ∷ beats
    ∷ gets_work (some gpu_job)
    ∷ gets_heartbeat (some deleted_reply)
    ∷ searches two_rounds
    ∷ stops
    ∷ []

day-natural : all_natural day ≡ true
unfolding all_natural is_natural
day-natural = refl

miner_run-IsHonest_example :
    (m : Miner) × (miner_run toy_sha toy_kernel no_kernel gpu_settings
        (start (Miner.new_miner alice gpu_only one_card))
        day
      ≡ some m)
    × IsHonest toy_sha toy_kernel no_kernel m
miner_run-IsHonest_example =
    miner_run-IsHonest toy_sha toy_kernel no_kernel gpu_settings (omega arith) alice gpu_only
      one_card day day-natural

-- A client that was deleted just before it sends a solution.
abbrev deleted_client : Miner
deleted_client = record (Miner.new_miner alice gpu_only one_card) {
  running = false;
  deleted_by_server = true;
  removed = true;
  cancelled = true;
  doing = Miner.reporting gpu_job 4 (text "000a");
}

abbrev evening : List MinerEvent
evening = stops ∷ submits ∷ gets_verdict none ∷ begins ∷ gets_work (some gpu_job) ∷ []

-- Alice's client at the head of its loop.
abbrev client : Miner
client = record (Miner.new_miner alice gpu_only one_card) { running = true; doing = resting }

abbrev client_record : MinerRecord
client_record = new_miner alice (text "10.0.0.7") (text "lab-7") (text "10.0.0.7") 1000

lab-client : lookup client.id lab.miners ≡ some client_record
unfolding lookup run step register_miner start_system new_mining_pool report set_miner insert
    text_eq Miner.new_miner
lab-client = refl

heartbeat_exchange_cases_example :
    ((lookup client.id lab.miners ≡ none)
      × IsDeleted (heartbeat_exchange 0 30 0 2000 client lab).0
      × ((heartbeat_exchange 0 30 0 2000 client lab).1 ≡ lab))
    ⊎ ((r : MinerRecord) × (lookup client.id lab.miners ≡ some r)
        × Follows r client (heartbeat_exchange 0 30 0 2000 client lab).0)
heartbeat_exchange_cases_example = heartbeat_exchange_cases 0 30 0 2000 client lab lab-IsSound

exchange-begin_round_example :
    ((begin_round
        (heartbeat_exchange 0 30 0 2000 client (pause_miner client.id 1500 lab).0).0).doing
      ≡ resting)
    × ((begin_round
          (heartbeat_exchange 0 30 0 2000 client (resume_miner client.id 1500 lab).0).0).doing
        ≡ fetching)
    × ((begin_round
          (heartbeat_exchange 0 30 0 2000 client (delete_miner client.id 1500 lab).0).0).doing
        ≡ ended)
unfolding new_miner
exchange-begin_round_example =
    exchange-begin_round 0 30 0 1500 2000 client lab refl refl client_record lab-client
      (omega arith)

abbrev client_config : ClientConfig
client_config = record {
  server = record {
    address = text "10.0.0.1:50051";
    tls = record { enabled = false; insecure_skip_verify = false; ca_cert_file = [] };
  };
  mining = gpu_only;
  gpu = gpu_settings;
  network = record {
    heartbeat_interval = 30 * second;
    retry_interval = 10 * second;
    max_retry_time = 300 * second;
  };
  behavior = record { worker_update_interval = 100000 };
  logging = record { level = []; format = []; quiet = false; verbose = false };
}

accepts_config : validate_client client_config ≡ none
unfolding validate_client is_empty is_bad_level is_bad_format
accepts_config = refl

-- No server answers; each attempt takes a second.
abbrev refused : ℕ → Attempt
refused k = record {
  tls_error = none;
  dial_error = some (text "connection refused");
  call_error = none;
  response = record { success = false; message = []; miner_id = [] };
  ended_at = (k * 11 + 1) * second;
}

refused-IsClock : IsClock client_config.network 0 refused
refused-IsClock = record { not_before = omega arith; sleeps = λ k. omega arith }

connect_with_retry-ends_example : Ended client_config.server.tls client_config.network 0 refused (
    connect_with_retry client_config.server.tls client_config.network 0 refused
      (client_config.network.max_retry_time / second + 2)
      0)
connect_with_retry-ends_example =
    connect_with_retry-ends client_config 0 refused accepts_config refused-IsClock

-- An executable, and a goroutine that gets three turns.
abbrev client_process : Process
client_process = record {
  executable = some (record { mod_time = 77; size = 4096 });
  shutdown_file = true;
  deletion = absent;
  ended = false;
}

abbrev turns : List (ℕ × Bool)
turns = (1000, true) ∷ (400_000_000, true) ∷ []

abbrev late_turns : List (ℕ × Bool)
late_turns = (900_000_000, true) ∷ []

self_delete-end_process_example :
    ((go_on_all late_turns
        (end_process (go_on_all turns (self_delete true true true client_process)))).executable
      ≡ client_process.executable)
    × ((go_on_all late_turns (handle_shutdown true client_process)).executable
        ≡ client_process.executable)
self_delete-end_process_example =
    self_delete-end_process 1000 true true true true turns late_turns client_process refl refl
