-- ===== src/Tests/ApiRuns.antt =====
-- The theorems of the HTTP interface on small inputs.
use red_team_coin.Base.{
  ◌+◌, ◌-◌, ◌/◌, ◌≡◌, ◌≢◌, ◌⊎◌, true, some, none, [], ◌++◌, if◌then◌else◌, length, text, text_eq,
}
use red_team_coin.Outcome.{ok}
use red_team_coin.Api.Reads.{
  Reader, service_unavailable, valid_json, validate, block_at, blockchain, read_request,
}
use red_team_coin.Api.Served.{BlockReply, read_request_cases}
use red_team_coin.Api.{Request, throttle, serve}
use red_team_coin.Api.Control.{IsTargeted, controlled, Acted, serve_cases}
use red_team_coin.Tests.Sample.{toy_sha, alice, lab, lab-IsSound, lab-short}

abbrev request : Request
request = record {
  authorization = text "Bearer 5ec2e7";
  method = text "POST";
  miner_body = some alice;
  throttle_body = some (alice, 40);
}

serve_cases_example :
    Acted
      ((request.authorization ≡ text "Bearer " ++ text "5ec2e7")
        × ((request.method ≡ text "POST") × IsTargeted throttle request lab))
      lab
      (controlled throttle request 20 lab)
      (serve (text "5ec2e7") throttle request 20 lab)
serve_cases_example = serve_cases (text "5ec2e7") throttle request 20 lab

-- The server's other parts, with a number read from the path's length.
abbrev reader : Reader
reader = record {
  sha = toy_sha;
  fl = record {
    add = λ x y. x + y;
    div = λ x y. x / y;
    of_int = λ n. n;
    seconds = λ n. n;
    hours = λ n. n / 3600;
  };
  format = λ time. [];
  scan = λ path. if text_eq path [] then none else some (length path - 12);
  auth_token = text "5ec2e7";
}

read_request_cases_example :
    ((text "Bearer 5ec2e7" ≢ text "Bearer " ++ text "5ec2e7")
      × (read_request reader 3000 [] blockchain (text "Bearer 5ec2e7") lab
          ≡ ok service_unavailable))
    ⊎ ((text "Bearer 5ec2e7" ≡ text "Bearer " ++ text "5ec2e7")
        × (read_request reader 3000 [] validate (text "Bearer 5ec2e7") lab ≡ ok (valid_json true))
        × BlockReply lab.blockchain.blocks
            (read_request reader 3000 []
              (block_at (text "/api/blocks/"))
              (text "Bearer 5ec2e7")
              lab)
            (reader.scan (text "/api/blocks/")))
read_request_cases_example =
    read_request_cases reader 3000 [] lab lab-IsSound lab-short (text "Bearer 5ec2e7")
      (text "/api/blocks/") blockchain
