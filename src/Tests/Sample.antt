-- ===== src/Tests/Sample.antt =====
-- A stand-in for the digest, a pool and the data that the runs share.
use red_team_coin.Base.{
  ℕ, List, [], ◌∷◌, ◌++◌, arith, take, replicate, length-append, length-take, Text, text, text_eq,
  ◌≡◌, refl, some, length, ◌<◌, ◌^◌, length, ◌<◌, ◌^◌,
}
use red_team_coin.Chain.{Blockchain, new_blockchain}
use red_team_coin.Chain.Links.{HexDigest}
use red_team_coin.Pool.{MinerRecord, MiningPool, new_mining_pool, report}
use red_team_coin.Pool.Registry.{new_miner, set_miner, register_miner}
use red_team_coin.Base.Dict.{lookup, insert}
use red_team_coin.Pool.System.{System, Call, registers, start_system, step, run}
use red_team_coin.Pool.Invariant.{IsSound}
use red_team_coin.Pool.Anchors.{IsAnchored}
use red_team_coin.Pool.Traceable.{IsTraceable, run-IsTraceable}

-- Ten zeros, and then the text's beginning.
abbrev pub toy_sha : Text → Text
toy_sha r = replicate 10 b'0' ++ take 54 (r ++ replicate 54 b'0')

pub toy_sha-HexDigest : HexDigest toy_sha
toy_sha-HexDigest r =
    let all = length-append (replicate 10 b'0') (take 54 (r ++ replicate 54 b'0')) in
    let taken = length-take 54 (r ++ replicate 54 b'0') in
    let padded = length-append r (replicate 54 b'0') in omega (arith, all, taken, padded)

abbrev pub first_chain : Blockchain
first_chain = new_blockchain toy_sha 3 1700000000

abbrev pub start : System
start = start_system (new_mining_pool first_chain)

abbrev pub alice : Text
alice = text "alice"

abbrev pub bob : Text
bob = text "bob"

abbrev pub registrations : List (ℕ × Call)
registrations =
    (1000, registers alice (text "10.0.0.7") (text "lab-7") (text "10.0.0.7"))
    ∷ (2000, registers bob (text "10.0.0.8") (text "lab-8") (text "10.0.0.8"))
    ∷ []

-- Two miners, and no work yet.
abbrev pub lab : MiningPool
lab = (run toy_sha start registrations).pool

pub lab-IsTraceable : IsTraceable toy_sha (run toy_sha start registrations)
lab-IsTraceable = run-IsTraceable toy_sha-HexDigest 3 1700000000 registrations

pub lab-IsSound : IsSound toy_sha lab
lab-IsSound = lab-IsTraceable.sound

pub lab-IsAnchored : IsAnchored lab
lab-IsAnchored = lab-IsTraceable.anchored

abbrev pub alice_record : MinerRecord
alice_record = new_miner alice (text "10.0.0.7") (text "lab-7") (text "10.0.0.7") 1000

pub lab-alice : lookup alice lab.miners ≡ some alice_record
unfolding lookup run step register_miner start_system new_mining_pool report set_miner insert
    text_eq
lab-alice = refl

pub lab-short : length lab.blockchain.blocks < 2 ^ 63
unfolding run step register_miner lookup start_system new_mining_pool report set_miner insert
    text_eq new_blockchain
lab-short = omega arith
