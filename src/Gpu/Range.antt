-- ===== src/Gpu/Range.antt =====
-- mineCPU, the search of a range of nonces that stands in for a kernel.
use red_team_coin.Base.{
  ℕ, zero, suc, ◌+◌, ◌^◌, ◌<◌, ◌≤◌, ◌≡◌, refl, inl, inr, false, ◌&&◌, [], arith, leb, length, take,
  replicate, Text, text_eq, I64, add64, lt64, is_neg32, Bool-cases, ==_iff, ◌==◌, subst, ◌⊎◌, ltb,
  ltb→lt,
}
use red_team_coin.Rpc.{WorkResponse}
use red_team_coin.Client.{work_hash}
use red_team_coin.Client.Worker.{Solves, tests_solution}
use red_team_coin.Gpu.{Ran, returns, cpu_range, mine_cpu}

module _ (sha : Text → Text) (work : WorkResponse) where
  -- A search of the nonces from `start` up to `end` returns the first that solves the work, with
  -- its hash, or an empty hash if none does; and the number of the nonces tried, on top of `hashes`.
  pub data Swept (start end hashes : ℕ) (r : Ran (I64 × Text × I64)) : Type 0 where
    first_solution :
        (n tried : ℕ)
        → r ≡ returns (n, work_hash sha work n, tried)
        → start ≤ n
        → n < end
        → tried + start ≡ suc (hashes + n)
        → Solves sha work n
        → ((m : ℕ) → start ≤ m → m < n → ¬ Solves sha work m)
        → Swept start end hashes r
    no_solution :
        (tried : ℕ)
        → r ≡ returns (0, [], tried)
        → tried + start ≡ hashes + end
        → ((m : ℕ) → start ≤ m → m < end → ¬ Solves sha work m)
        → Swept start end hashes r

module _ (sha : Text → Text) (work : WorkResponse) (small : work.difficulty < 2 ^ 31) where
  from_next :
      (start end : ℕ)
      → ¬ Solves sha work start
      → ((m : ℕ) → suc start ≤ m → m < end → ¬ Solves sha work m)
      → (m : ℕ) → start ≤ m
      → m < end
      → ¬ Solves sha work m
  from_next start end not_start rest m from lt = elim (Bool-cases (start == m)) [
    | inl e ↦ subst (λ n. ¬ Solves sha work n) ((==_iff start m).0 e) not_start
    | inr e ↦ rest m (ground (arith, ==_iff start m)) lt
  ]

  Swept-next :
      (start end hashes : ℕ) (r : Ran (I64 × Text × I64))
      → ¬ Solves sha work start
      → Swept sha work (suc start) end (suc hashes) r
      → Swept sha work start end hashes r
  Swept-next start end hashes r not_start (first_solution n tried e from to count solves before) =
      first_solution n tried e (omega (arith, from)) to (omega (arith, count)) solves
        (from_next start n not_start before)
  Swept-next start end hashes r not_start (no_solution tried e count before) =
      no_solution tried e (omega (arith, count)) (from_next start end not_start before)

  pub cpu_range-Swept :
      (fuel start end hashes : ℕ)
      → start ≤ end
      → end < start + fuel
      → end < 2 ^ 63
      → hashes + end < 2 ^ 63 + start
      → Swept sha work start end hashes (cpu_range sha work fuel start end hashes)
  unfolding cpu_range
  cpu_range-Swept zero start end hashes o f s h = absurd (omega arith)
  cpu_range-Swept (suc fuel) start end hashes o f s h = elim (Bool-cases (lt64 start end)) [
    | inr ended ↦
        rw (ended, cpu_range)
          (no_solution hashes refl (ground arith) (λ m from to. absurd (ground arith)))
    | inl more ↦
        let natural : is_neg32 work.difficulty ≡ false = ground arith in
        let one : add64 hashes 1 ≡ suc hashes = ground arith in
        let next : add64 start 1 ≡ suc start = ground arith in
        let test = tests_solution sha work start in
        elim (Bool-cases (
          leb work.difficulty (length (work_hash sha work start))
          && text_eq (take work.difficulty (work_hash sha work start))
              (replicate work.difficulty b'0'))) [
                | inl e ↦
                    rw (more, natural, e, one, cpu_range)
                      (first_solution start (suc hashes) refl (omega arith) (ground arith)
                        (omega arith) (test.0 e) (λ m from to. absurd (omega arith)))
                | inr e ↦
                    rw (more, natural, e, one, next, cpu_range)
                      (Swept-next start end hashes _ (λ s. absurd (cc (test.1 s)))
                        (cpu_range-Swept fuel (suc start) end (suc hashes) (ground arith)
                          (omega arith) s (omega arith)))
              ]
  ]

  -- mineCPU ends, for work whose difficulty is not negative and for a first nonce and a count of
  -- nonces that are not negative. If the range ends below 2 ^ 63, the answer is the first nonce of
  -- the range that meets the difficulty, with its hash, or an empty hash if there is none, and the
  -- number of nonces tried. If it does not, the end of the range overflows and nothing is tried.
  pub mine_cpu-Swept :
      (start_nonce nonce_range : I64)
      → start_nonce < 2 ^ 63
      → nonce_range < 2 ^ 63
      → ((start_nonce + nonce_range < 2 ^ 63)
          × Swept sha work start_nonce
              (start_nonce + nonce_range)
              0
              (mine_cpu sha work start_nonce nonce_range))
        ⊎ ((2 ^ 63 ≤ start_nonce + nonce_range)
            × (mine_cpu sha work start_nonce nonce_range ≡ returns (0, [], 0)))
  unfolding mine_cpu cpu_range
  mine_cpu-Swept start_nonce nonce_range s r =
      elim (Bool-cases (ltb (start_nonce + nonce_range) (2 ^ 63))) [
        | inl fits ↦
            let below = ltb→lt (start_nonce + nonce_range) (2 ^ 63) fits in
            let end : add64 start_nonce nonce_range ≡ start_nonce + nonce_range = omega arith in
            inl (
              below,
              rw (end, mine_cpu)
                  (cpu_range-Swept (suc nonce_range) start_nonce (start_nonce + nonce_range) 0
                    (omega arith) (omega arith) below (omega arith)),
            )
        | inr over ↦
            let ended : lt64 start_nonce (add64 start_nonce nonce_range) ≡ false = ground arith in
            inr (ground arith, rw (ended, mine_cpu, cpu_range) refl)
      ]
