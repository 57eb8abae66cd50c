-- ===== src/Client/Worker.antt =====
-- A worker of the client finds the first nonce of its own sequence that meets the difficulty.
use red_team_coin.Base.{
  ℕ, zero, suc, ◌<◌, ◌≡◌, ◌↔◌, refl, inl, inr, true, false, ◌&&◌, arith, leb, if◌then◌else◌, length,
  take, replicate, Text, text_eq, text_eq_iff, I64, add64, Bool-cases,
}
use red_team_coin.Chain.Links.{MeetsDifficulty}
use red_team_coin.Rpc.{WorkResponse}
use red_team_coin.Client.{MineResult, work_hash, cpu_worker}

-- The nonce a worker tries after some rounds.
abbrev pub nth_nonce : ℕ → I64 → ℕ → I64
nth_nonce n nonce zero = nonce
nth_nonce n nonce (suc k) = nth_nonce n (add64 nonce n) k

module _ (sha : Text → Text) (work : WorkResponse) where
  abbrev pub Solves : I64 → Type 0
  Solves nonce = MeetsDifficulty work.difficulty (work_hash sha work nonce)

  -- What a worker's result says of its search, from a nonce on, for some rounds.
  pub data Searched (n : ℕ) (start : I64) (rounds : ℕ) (r : MineResult) : Type 0 where
    hit :
        (k : ℕ)
        → k < rounds
        → r.found ≡ true
        → r.nonce ≡ nth_nonce n start k
        → r.hash ≡ work_hash sha work r.nonce
        → Solves r.nonce
        → ((j : ℕ) → j < k → ¬ Solves (nth_nonce n start j))
        → Searched n start rounds r
    miss :
        r.found ≡ false
        → ((j : ℕ) → j < rounds → ¬ Solves (nth_nonce n start j))
        → Searched n start rounds r

  pub tests_solution :
      (nonce : I64)
      → ((leb work.difficulty (length (work_hash sha work nonce))
            && text_eq
                (take work.difficulty (work_hash sha work nonce))
                (replicate work.difficulty b'0'))
          ≡ true)
        ↔ Solves nonce
  tests_solution nonce =
      let same =
        text_eq_iff (take work.difficulty (work_hash sha work nonce))
          (replicate work.difficulty b'0') in
      (λ h. ground arith, λ h. ground arith)

  later_misses :
      (n : ℕ) (start : I64) (k : ℕ)
      → ¬ Solves start
      → ((j : ℕ) → j < k → ¬ Solves (nth_nonce n (add64 start n) j))
      → (j : ℕ) → j < suc k
      → ¬ Solves (nth_nonce n start j)
  later_misses n start k first rest zero lt = first
  later_misses n start k first rest (suc j) lt = rest j (omega arith)

  pub cpu_worker-Searched :
      (n rounds : ℕ) (start hashes : I64)
      → Searched n start rounds
          (cpu_worker sha work (replicate work.difficulty b'0') n rounds start hashes)
  unfolding cpu_worker
  cpu_worker-Searched n zero start hashes = miss refl (λ j lt. absurd (omega arith))
  cpu_worker-Searched n (suc rounds) start hashes =
      let test = tests_solution start in
      elim (Bool-cases (
        leb work.difficulty (length (work_hash sha work start))
        && text_eq (take work.difficulty (work_hash sha work start))
            (replicate work.difficulty b'0'))) [
              | inl e ↦
                  rw (e, if◌then◌else◌)
                    (hit 0 (omega arith) refl refl refl (test.0 e) (λ j lt. absurd (omega arith)))
              | inr e ↦
                  let first : ¬ Solves start = λ s. absurd (cc (test.1 s)) in
                  rw (e, if◌then◌else◌)
                    (elim (cpu_worker-Searched n rounds (add64 start n) (add64 hashes 1)) [
                      | hit k lt found at hash solves before ↦
                          hit (suc k) (omega arith) found at hash solves
                            (later_misses n start k first before)
                      | miss found before ↦ miss found (later_misses n start rounds first before)
                    ])
            ]
