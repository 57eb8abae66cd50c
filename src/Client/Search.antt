-- ===== src/Client/Search.antt =====
-- What the whole search of mineBlock returns: a solution of the work, and one whenever one worker
-- reaches one.
use red_team_coin.Base.{
  ℕ, zero, suc, ◌<◌, ◌^◌, ◌≡◌, ◌≢◌, refl, sym, ap, ◌∙◌, subst, true, false, some, List, [], ◌∷◌,
  arith, if◌then◌else◌, length, get_elem?, replicate, Text, I64, map, is_neg32,
}
use red_team_coin.Chain.Links.{HexDigest}
use red_team_coin.Rpc.{WorkResponse}
use red_team_coin.Client.{
  MineResult, calculate_hash, work_hash, cpu_worker, worker_result, collect, no_result, mine_block,
}
use red_team_coin.Client.Worker.{nth_nonce, Solves, hit, miss, cpu_worker-Searched}
use red_team_coin.Client.Collect.{collect_sound, collect_finds}

worker_at :
    (sha : Text → Text) (work : WorkResponse) (n : ℕ) (schedule : List (ℕ × ℕ)) (i : ℕ)
    (worker rounds : ℕ)
    → get_elem? schedule i ≡ some (worker, rounds)
    → get_elem? (map (worker_result sha work n) schedule) i
      ≡ some (worker_result sha work n (worker, rounds))
worker_at sha work n [] i worker rounds at = absurd (cc at)
worker_at sha work n (x ∷ rest) zero worker rounds at =
    let same : x ≡ (worker, rounds) = cc in ap (λ p. some (worker_result sha work n p)) same
worker_at sha work n (x ∷ rest) (suc i) worker rounds at =
    worker_at sha work n rest i worker rounds at

result_at :
    (sha : Text → Text) (work : WorkResponse) (n : ℕ) (schedule : List (ℕ × ℕ)) (i : ℕ)
    (r : MineResult)
    → get_elem? (map (worker_result sha work n) schedule) i ≡ some r
    → (p : ℕ × ℕ) × (worker_result sha work n p ≡ r)
result_at sha work n [] i r at = absurd (cc at)
result_at sha work n (x ∷ rest) zero r at = (x, cc)
result_at sha work n (x ∷ rest) (suc i) r at = result_at sha work n rest i r at

module _ (sha : Text → Text) (work : WorkResponse) where
  abbrev pub Solution : I64 → Text → Type 0
  Solution nonce hash = (hash ≡ work_hash sha work nonce) × Solves sha work nonce

  hex_length : HexDigest sha → (nonce : I64) → length (work_hash sha work nonce) ≡ 64
  unfolding calculate_hash
  hex_length hex nonce = hex _

  worker_result-Solution :
      (n : ℕ) (p : ℕ × ℕ)
      → (worker_result sha work n p).found ≡ true
      → Solution (worker_result sha work n p).nonce (worker_result sha work n p).hash
  unfolding worker_result
  worker_result-Solution n (worker, rounds) is_found =
      elim (cpu_worker-Searched sha work n rounds worker 0) [
        | hit k lt found at hash solves before ↦ (hash, solves)
        | miss found before ↦ absurd (cc)
      ]

  worker_result_found :
      HexDigest sha
      → (n worker rounds k : ℕ) → k < rounds
      → Solves sha work (nth_nonce n worker k)
      → ((worker_result sha work n (worker, rounds)).found ≡ true)
        × ((worker_result sha work n (worker, rounds)).hash ≢ [])
  unfolding worker_result
  worker_result_found hex n worker rounds k lt solves =
      elim (cpu_worker-Searched sha work n rounds worker 0) [
        | hit j _ found at hash _ before ↦ (
          found,
          λ nil.
              let long =
                hex_length hex
                  (cpu_worker sha work (replicate work.difficulty b'0') n rounds worker 0).nonce in
              let none_long : length (
                    work_hash sha work
                      (cpu_worker sha work (replicate work.difficulty b'0') n rounds worker
                        0).nonce)
                  ≡ 0 =
                ap length (sym hash ∙ nil) in
              absurd (omega (arith, long, none_long)),
        )
        | miss found before ↦ absurd (before k lt solves)
      ]

  mine_block-collect :
      work.difficulty < 2 ^ 31
      → (schedule : List (ℕ × ℕ))
      → mine_block sha work schedule
        ≡ some (collect no_result 0 (map (worker_result sha work (length schedule)) schedule))
  unfolding mine_block
  mine_block-collect small schedule =
      let natural : is_neg32 work.difficulty ≡ false = ground arith in
      rw (natural, if◌then◌else◌) refl

  -- For work whose difficulty is not negative, mineBlock returns, whatever the workers' rounds and
  -- the order of their results. If the hash it returns is not empty, that is the work's hash at the
  -- nonce it returns, and meets the difficulty.
  pub mine_block_sound :
      work.difficulty < 2 ^ 31
      → (schedule : List (ℕ × ℕ))
      → (nonce : I64) × (hash : Text) × (total : I64) × (mine_block sha work schedule
          ≡ some (nonce, (hash, total)))
        × (hash ≢ [] → (hash ≡ work_hash sha work nonce) × Solves sha work nonce)
  mine_block_sound small schedule =
      let results = map (worker_result sha work (length schedule)) schedule in
      let out = collect no_result 0 results in
      (
        out.0,
        out.1.0,
        out.1.1,
        mine_block-collect small schedule,
        λ ne.
            collect_sound Solution no_result 0 results (λ nil. absurd (nil refl))
              (λ i r at is_found.
                let (p, e) = result_at sha work (length schedule) schedule i r at in
                subst (λ q. Solution q.nonce q.hash) e
                  (worker_result-Solution (length schedule) p (rw (e) is_found)))
              ne,
      )

  -- The search is complete: if the difficulty is not negative, the digest is not empty, and some
  -- worker's rounds take it past a nonce that meets the difficulty, mineBlock returns a hash.
  pub mine_block_complete :
      work.difficulty < 2 ^ 31
      → HexDigest sha
      → (schedule : List (ℕ × ℕ)) (i worker rounds k : ℕ)
      → get_elem? schedule i ≡ some (worker, rounds)
      → k < rounds
      → Solves sha work (nth_nonce (length schedule) worker k)
      → (nonce : I64) × (hash : Text) × (total : I64) × (mine_block sha work schedule
          ≡ some (nonce, (hash, total)))
        × (hash ≢ [])
  mine_block_complete small hex schedule i worker rounds k at lt solves =
      let n = length schedule in
      let results = map (worker_result sha work n) schedule in
      let out = collect no_result 0 results in
      let (is_found, ne) = worker_result_found hex n worker rounds k lt solves in
      (
        out.0,
        out.1.0,
        out.1.1,
        mine_block-collect small schedule,
        collect_finds no_result 0 results i (worker_result sha work n (worker, rounds))
            (worker_at sha work n schedule i worker rounds at) is_found ne,
      )
