-- ===== src/Report/Printed.antt =====
-- The texts of the report that must fit.
use red_team_coin.Base.{
  ◌≤◌, ◌<◌, ◌^◌, ◌≡◌, refl, ◌++◌, ◌-◌, arith, Bool-cases, inl, inr, leb, leb→le, length,
  length-append, length-take, take, Text, text, I64,
}
use red_team_coin.Outcome.{ok, panic}
use red_team_coin.Report.Format.{sub64, truncate}

-- truncate returns a text that has at most maxLen bytes, for a maxLen from 3 on, and a short text
-- as it is.
pub truncate-fits :
    (s : Text) (max_len : I64)
    → 3 ≤ max_len
    → max_len < 2 ^ 63
    → length s < 2 ^ 63
    → (t : Text) × (truncate s max_len ≡ ok t) × (length t ≤ max_len) × (length s ≤ max_len → t ≡ s)
unfolding truncate
truncate-fits s max_len low high fits = elim (Bool-cases (leb (length s) max_len)) [
  | inl short ↦ (s, ground arith, leb→le (length s) max_len short, λ h. refl)
  | inr long ↦
      let kept = max_len - 3 in
      let same : sub64 max_len 3 ≡ kept = omega arith in
      let cut = take kept s ++ text "..." in
      let small = length-append (take kept s) (text "...") in
      let taken = length-take kept s in
      (cut, rw same (ground arith), omega (arith, small, taken), λ h. absurd (ground arith))
]

-- Below 3 it panics on each text that is too long.
pub truncate-panics :
    (s : Text) (max_len : I64)
    → max_len < 3
    → max_len < length s
    → length s < 2 ^ 63
    → truncate s max_len ≡ panic
unfolding truncate
truncate-panics s max_len low long fits = ground arith
