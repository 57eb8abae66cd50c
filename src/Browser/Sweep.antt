-- ===== src/Browser/Sweep.antt =====
-- mineNonceRange in the browser finds what mineCPU of the client finds.
use red_team_coin.Base.{
  ℕ, zero, suc, ◌+◌, ◌-◌, ◌%◌, ◌^◌, ◌<◌, ◌≤◌, ◌≡◌, refl, inl, inr, ◌⊎◌, true, false, ◌&&◌, [], leb,
  arith, if◌then◌else◌, length, take, replicate, Text, text_eq, I64, add64, lt64, is_neg32,
  Bool-cases,
}
use red_team_coin.Rpc.{WorkResponse}
use red_team_coin.Client.{MineResult, work_hash}
use red_team_coin.Client.Worker.{tests_solution}
use red_team_coin.Client.Search.{Solution}
use red_team_coin.Gpu.{Ran, returns, panics, runs_out, cpu_range}
use red_team_coin.Gpu.Range.{Swept, first_solution, no_solution, cpu_range-Swept}
use red_team_coin.Browser.{WebMiner, mine_range, mine_nonce_range}

-- Both searches return the same, and the browser's miner has counted the hashes and the block.
abbrev SameAs :
    (Text → Text)
    → WorkResponse
    → WebMiner
    → I64
    → Ran (I64 × Text × I64)
    → Ran (WebMiner × MineResult)
    → Type 0
SameAs sha work m hashes (returns (n, h, k)) (returns (m', r)) =
    (r.nonce ≡ n)
    × (r.hash ≡ h)
    × (r.hashes ≡ k)
    × (add64 m'.total_hashes hashes ≡ add64 m.total_hashes k)
    × (m'.blocks_found ≡ (if r.found then add64 m.blocks_found 1 else m.blocks_found))
    × (((r.found ≡ true) × Solution sha work r.nonce r.hash) ⊎ ((r.found ≡ false) × (r.hash ≡ [])))
SameAs sha work m hashes panics panics = Unit
SameAs sha work m hashes runs_out runs_out = Unit
SameAs sha work m hashes _ _ = ⊥

SameAs-next :
    (sha : Text → Text) (work : WorkResponse) (m : WebMiner) (hashes nonce : I64)
    (a : Ran (I64 × Text × I64)) (b : Ran (WebMiner × MineResult))
    → SameAs sha work
        (record m { total_hashes = add64 m.total_hashes 1; current_nonce = nonce })
        (add64 hashes 1)
        a
        b
    → SameAs sha work m hashes a b
SameAs-next sha work m hashes nonce (returns (n, h, k)) (returns (m', r))
      (e, f, g, total, blocks, found) =
    (e, f, g, omega (arith, total), blocks, found)
SameAs-next sha work m hashes nonce panics panics s = s
SameAs-next sha work m hashes nonce runs_out runs_out s = s
SameAs-next sha work m hashes nonce (returns a) panics s = s
SameAs-next sha work m hashes nonce (returns a) runs_out s = s
SameAs-next sha work m hashes nonce panics (returns b) s = s
SameAs-next sha work m hashes nonce panics runs_out s = s
SameAs-next sha work m hashes nonce runs_out (returns b) s = s
SameAs-next sha work m hashes nonce runs_out panics s = s

module _ (sha : Text → Text) (rate : I64 → I64) (work : WorkResponse) where
  mine_range-SameAs :
      (fuel : ℕ) (nonce end hashes : I64) (m : WebMiner)
      → SameAs sha work m hashes
          (cpu_range sha work fuel nonce end hashes)
          (mine_range sha rate work fuel nonce end hashes m)
  unfolding cpu_range mine_range
  mine_range-SameAs zero nonce end hashes m = tt
  mine_range-SameAs (suc fuel) nonce end hashes m = elim (Bool-cases (lt64 nonce end)) [
    | inr ended ↦ rw (ended, cpu_range, mine_range) (refl, refl, refl, refl, refl, inr (refl, refl))
    | inl more ↦ elim (Bool-cases (is_neg32 work.difficulty)) [
      | inl negative ↦ rw (more, negative, cpu_range, mine_range) tt
      | inr natural ↦
          elim (Bool-cases (
            leb work.difficulty (length (work_hash sha work nonce))
            && text_eq (take work.difficulty (work_hash sha work nonce))
                (replicate work.difficulty b'0'))) [
                  | inl e ↦
                      rw (more, natural, e, cpu_range, mine_range)
                        (
                          refl,
                          refl,
                          refl,
                          omega arith,
                          refl,
                          inl (refl, (refl, (tests_solution sha work nonce).0 e)),
                        )
                  | inr e ↦
                      rw (more, natural, e, cpu_range, mine_range)
                        (SameAs-next sha work m hashes nonce _ _
                          (mine_range-SameAs fuel (add64 nonce 1) end (add64 hashes 1) _))
                ]
    ]
  ]

  -- The miner and the answer after a search of the nonces from `start` up to `end`.
  pub record Searched (start end : I64) (m m' : WebMiner) (r : MineResult) : Type 0 where
    pub swept : Swept sha work start end 0 (returns (r.nonce, r.hash, r.hashes))
    pub found_hash :
        ((r.found ≡ true) × Solution sha work r.nonce r.hash) ⊎ ((r.found ≡ false) × (r.hash ≡ []))
    pub hashes_counted : m'.total_hashes % 2 ^ 64 ≡ add64 m.total_hashes r.hashes
    pub blocks_counted :
        m'.blocks_found ≡ (if r.found then add64 m.blocks_found 1 else m.blocks_found)

  Swept-returns :
      (start end hashes : ℕ) (a : Ran (I64 × Text × I64))
      → Swept sha work start end hashes a
      → (n : I64) × (h : Text) × (k : I64) × (a ≡ returns (n, h, k))
  Swept-returns start end hashes a (first_solution n tried e from to count solves before) =
      (n, work_hash sha work n, tried, e)
  Swept-returns start end hashes a (no_solution tried e count before) = (0, [], tried, e)

  SameAs-Searched :
      (start end : I64) (m : WebMiner) (n : I64) (h : Text) (k : I64)
      (b : Ran (WebMiner × MineResult))
      → Swept sha work start end 0 (returns (n, h, k))
      → SameAs sha work m 0 (returns (n, h, k)) b
      → (m' : WebMiner) × (r : MineResult) × (b ≡ returns (m', r)) × Searched start end m m' r
  SameAs-Searched start end m n h k (returns (m', r)) swept (e, f, g, total, blocks, found) = (
    m',
    r,
    refl,
    record {
      swept = rw (e, f, g) swept;
      found_hash = found;
      hashes_counted = omega (arith, total, g);
      blocks_counted = blocks;
    },
  )
  SameAs-Searched start end m n h k panics swept s = absurd s
  SameAs-Searched start end m n h k runs_out swept s = absurd s

  -- For work whose difficulty is not negative, mineNonceRange ends on every range of nonces that are
  -- not negative: with the first nonce of the range that meets the difficulty and its hash, or with
  -- an empty hash if there is none, and with the number of nonces tried. It reports as found exactly a
  -- solution, with its hash. The miner has counted the nonces, modulo 2 ^ 64, and one more block if one
  -- is reported.
  pub mine_nonce_range-Searched :
      (start_nonce end_nonce : I64) (m : WebMiner)
      → work.difficulty < 2 ^ 31
      → start_nonce ≤ end_nonce
      → end_nonce < 2 ^ 63
      → (m' : WebMiner) × (r : MineResult) × (mine_nonce_range sha rate work start_nonce end_nonce m
          ≡ returns (m', r))
        × Searched start_nonce end_nonce m m' r
  unfolding mine_nonce_range
  mine_nonce_range-Searched start_nonce end_nonce m small o below =
      let fuel = suc ((end_nonce + 2 ^ 64 - start_nonce) % 2 ^ 64) in
      let same = mine_range-SameAs fuel start_nonce end_nonce 0 m in
      let swept =
        cpu_range-Swept sha work small fuel start_nonce end_nonce 0 o (omega arith) below
          (omega arith) in
      let (n, h, k, e) = Swept-returns start_nonce end_nonce 0 _ swept in
      SameAs-Searched start_nonce end_nonce m n h k _ (rw e at swept) (rw e at same)
