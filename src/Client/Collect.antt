-- ===== src/Client/Collect.antt =====
-- Which of the results of its workers mineBlock returns.
use red_team_coin.Base.{
  ℕ, zero, suc, ◌≡◌, ◌≢◌, refl, ◌⊎◌, inl, inr, true, false, ◌&&◌, some, List, [], ◌∷◌, arith,
  if◌then◌else◌, get_elem?, Text, I64, add64, Bool-cases,
}
use red_team_coin.Config.{is_empty}
use red_team_coin.Config.Server.{is_empty_iff}
use red_team_coin.Client.{MineResult, keep_first, collect}

pub keep_first_cases :
    (found res : MineResult)
    → ((keep_first found res ≡ res) × ((res.found ≡ true) × (found.hash ≡ [])))
      ⊎ ((keep_first found res ≡ found) × ((res.found ≡ true) → (found.hash ≢ [])))
unfolding keep_first
keep_first_cases found res =
    let empty = is_empty_iff found.hash in
    elim (Bool-cases (res.found && is_empty found.hash)) [
      | inl e ↦ rw (e, if◌then◌else◌) (inl (refl, (ground arith, empty.0 (ground arith))))
      | inr e ↦
          rw (e, if◌then◌else◌)
            (inr (refl, λ is_found nil. absurd (ground (arith, is_found, empty.1 nil))))
    ]

-- What holds of every hash found among the results holds of the hash that is returned.
pub collect_sound {ℓ} :
    (P : I64 → Text → Type ℓ) (found : MineResult) (total : I64) (results : List MineResult)
    → (found.hash ≢ [] → P found.nonce found.hash)
    → ((i : ℕ) (r : MineResult) → get_elem? results i ≡ some r → r.found ≡ true → P r.nonce r.hash)
    → (collect found total results).1.0 ≢ []
    → P (collect found total results).0 (collect found total results).1.0
unfolding collect
collect_sound P found total [] before each ne =
    let empty = is_empty_iff found.hash in
    elim (Bool-cases (is_empty found.hash)) [
      | inl e ↦
          let nothing : (collect found total []).1.0 ≡ [] = rw (e, if◌then◌else◌) refl in
          absurd (ne nothing)
      | inr e ↦ rw (e, if◌then◌else◌) (before (λ h. absurd (cc (empty.1 h))))
    ]
collect_sound P found total (res ∷ rest) before each ne =
    collect_sound P (keep_first found res) (add64 total res.hashes) rest
      (elim (keep_first_cases found res) [
        | inl (e, (is_found, _)) ↦ rw (e) (λ _. each 0 res refl is_found)
        | inr (e, _) ↦ rw (e) before
      ])
      (λ i r at. each (suc i) r at) ne

collect_keeps :
    (found : MineResult) (total : I64) (results : List MineResult)
    → found.hash ≢ []
    → (collect found total results).1.0 ≢ []
unfolding collect
collect_keeps found total [] ne =
    let empty = is_empty_iff found.hash in
    let is_set : is_empty found.hash ≡ false = ground arith in rw (is_set, if◌then◌else◌) ne
collect_keeps found total (res ∷ rest) ne =
    collect_keeps (keep_first found res) (add64 total res.hashes) rest
      (elim (keep_first_cases found res) [
        | inl (e, (_, nil)) ↦ absurd (ne nil)
        | inr (e, _) ↦ rw (e) ne
      ])

-- A result that was found is enough for a hash to be returned.
pub collect_finds :
    (found : MineResult) (total : I64) (results : List MineResult) (i : ℕ) (r : MineResult)
    → get_elem? results i ≡ some r
    → r.found ≡ true
    → r.hash ≢ []
    → (collect found total results).1.0 ≢ []
unfolding collect
collect_finds found total [] i r at is_found ne = absurd (cc at)
collect_finds found total (res ∷ rest) zero r at is_found ne =
    let same : res ≡ r = cc in
    collect_keeps (keep_first found res) (add64 total res.hashes) rest
      (elim (keep_first_cases found res) [
        | inl (e, _) ↦ rw (e, same) ne
        | inr (e, first) ↦ rw (e) (first (rw (same) is_found))
      ])
collect_finds found total (res ∷ rest) (suc i) r at is_found ne =
    collect_finds (keep_first found res) (add64 total res.hashes) rest i r at is_found ne
