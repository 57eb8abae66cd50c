-- ===== src/Tests/StatsRuns.antt =====
-- The theorem of the pool's statistics on a small input.
use mathlib.Core.List.{Perm}
use mathlib.Core.List.Perm as Permutation
use red_team_coin.Base.{ℕ, ◌+◌, ◌/◌, ◌≡◌, List, [], ◌∷◌, map, Text, text, text_eq}
use red_team_coin.Base.Dict.{lookup, insert}
use red_team_coin.Pool.{MinerRecord, report, new_mining_pool}
use red_team_coin.Pool.Registry.{new_miner, set_miner, register_miner}
use red_team_coin.Pool.System.{start_system, run, step}
use red_team_coin.Pool.Statistics.{
  FloatOps, get_pool_stats, get_cpu_stats, get_active_miner_count, to_cpu_stats,
}
use red_team_coin.Pool.Reports.{records, Reports, statistics-Reports}
use red_team_coin.Tests.Sample.{lab}

abbrev whole_floats : FloatOps
whole_floats = record {
  add = λ x y. x + y;
  div = λ x y. x / y;
  of_int = λ n. n;
  seconds = λ n. n / 1000000000;
  hours = λ n. n / 3600000000000;
}

abbrev no_format : ℕ → Text
no_format time = []

abbrev alice_record : MinerRecord
alice_record = new_miner (text "alice") (text "10.0.0.7") (text "lab-7") (text "10.0.0.7") 1000

abbrev bob_record : MinerRecord
bob_record = new_miner (text "bob") (text "10.0.0.8") (text "lab-8") (text "10.0.0.8") 2000

-- The map visited from its end.
abbrev backwards : List MinerRecord
backwards = bob_record ∷ alice_record ∷ []

backwards-Perm : Perm backwards (records lab.miners)
unfolding insert text_eq run step register_miner lookup start_system new_mining_pool report
    set_miner
backwards-Perm = Permutation.swap alice_record bob_record []

same-Perm : Perm (records lab.miners) (records lab.miners)
same-Perm = Permutation.refl (records lab.miners)

statistics-Reports_example :
    Reports whole_floats 5000
      (records lab.miners)
      backwards
      (records lab.miners)
      (get_pool_stats whole_floats 5000 backwards lab)
      (get_cpu_stats whole_floats no_format 5000 (records lab.miners) lab)
      (get_active_miner_count 5000 backwards)
    × ((get_cpu_stats whole_floats no_format 5000 (records lab.miners) lab).miner_stats
        ≡ map (to_cpu_stats whole_floats no_format 5000) (records lab.miners))
statistics-Reports_example =
    statistics-Reports whole_floats no_format 5000 lab backwards-Perm same-Perm backwards-Perm
