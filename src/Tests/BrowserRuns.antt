-- ===== src/Tests/BrowserRuns.antt =====
-- The theorem of the browser's miner on a small input.
use red_team_coin.Base.{◌≡◌, arith, I64}
use red_team_coin.Client.{MineResult}
use red_team_coin.Gpu.{returns}
use red_team_coin.Browser.{WebMiner, new_web_miner, mine_nonce_range}
use red_team_coin.Browser.Sweep.{Searched, mine_nonce_range-Searched}
use red_team_coin.Tests.Sample.{toy_sha}
use red_team_coin.Tests.GpuRuns.{gpu_job}

abbrev one_second : I64 → I64
one_second hashes = hashes

mine_nonce_range-Searched_example :
    (m : WebMiner) × (r : MineResult) × (mine_nonce_range toy_sha one_second gpu_job 5 9
        (new_web_miner 0)
      ≡ returns (m, r))
    × Searched toy_sha one_second gpu_job 5 9 (new_web_miner 0) m r
mine_nonce_range-Searched_example =
    mine_nonce_range-Searched toy_sha one_second gpu_job 5 9 (new_web_miner 0) (omega arith)
      (omega arith) (omega arith)
