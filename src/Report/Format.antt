-- ===== src/Report/Format.antt =====
-- The texts of the report: durations, large numbers, cut names and cost estimates.
use red_team_coin.Base.{
  ℕ, ◌+◌, ◌-◌, ◌/◌, ◌%◌, ◌^◌, not, ◌||◌, ltb, ◌++◌, if◌then◌else◌, length, take, Text, text, I64,
  is_neg64, lt64, format_int,
}
use red_team_coin.Outcome.{Outcome, ok, panic}
use red_team_coin.Pool.{Float64}
use red_team_coin.Report.{FloatOps}

-- a - b on int64.
abbrev pub sub64 : I64 → I64 → I64
sub64 a b = (a + 2 ^ 64 - b) % 2 ^ 64

-- m % 60 on int64, with the sign of m.
abbrev pub rem_60 : I64 → I64
rem_60 m = if is_neg64 m then sub64 0 (sub64 0 m % 60) else m % 60

-- No conversion error is in sight, so truncate has none: it answers or panics.
pub data NoError : Type 0 where
  no_error : NoError

-- s[:maxLen-3] panics below 0 and behind the end.
unfoldable pub truncate : Text → I64 → Outcome NoError Text
truncate s max_len =
    if not (lt64 max_len (length s))
    then ok s
    else if is_neg64 (sub64 max_len 3) || ltb (length s) (sub64 max_len 3)
    then panic
    else ok (take (sub64 max_len 3) s ++ text "...")

module _ (fl : FloatOps) where
  unfoldable pub format_duration : I64 → Text
  format_duration d =
      let hours = fl.to_int (fl.hours d) in
      let minutes = rem_60 (fl.to_int (fl.minutes d)) in
      if lt64 24 hours
      then format_int (hours / 24)
        ++ (text "d "
            ++ (format_int (hours % 24) ++ (text "h " ++ (format_int minutes ++ text "m"))))
      else format_int hours ++ (text "h " ++ (format_int minutes ++ text "m"))

  -- fmt.Sprintf("%.<decimals>f<suffix>", float64(n)/unit)
  unfoldable pub scaled : ℕ → I64 → Float64 → Text → Text
  scaled decimals n unit suffix = fl.fixed decimals (fl.div (fl.of_int n) unit) ++ suffix

  unfoldable pub format_number : I64 → Text
  format_number n =
      if not (lt64 n (10 ^ 12))
      then scaled 2 n 0x426d_1a94_a200_0000 (text "T")
      else if not (lt64 n (10 ^ 9))
      then scaled 2 n 0x41cd_cd65_0000_0000 (text "B")
      else if not (lt64 n (10 ^ 6))
      then scaled 2 n 0x412e_8480_0000_0000 (text "M")
      else if not (lt64 n (10 ^ 3))
      then scaled 2 n 0x408f_4000_0000_0000 (text "K")
      else format_int n

  unfoldable pub format_number_short : I64 → Text
  format_number_short n =
      if not (lt64 n (10 ^ 12))
      then scaled 1 n 0x426d_1a94_a200_0000 (text "T")
      else if not (lt64 n (10 ^ 9))
      then scaled 1 n 0x41cd_cd65_0000_0000 (text "B")
      else if not (lt64 n (10 ^ 6))
      then scaled 1 n 0x412e_8480_0000_0000 (text "M")
      else if not (lt64 n (10 ^ 3))
      then scaled 1 n 0x408f_4000_0000_0000 (text "K")
      else format_int n

  -- The end of the three estimates, from 1e6 and 1e3.
  unfoldable pub format_cost : Float64 → Text
  format_cost cost =
      if fl.ge cost 0x412e_8480_0000_0000
      then fl.fixed 2 (fl.div cost 0x412e_8480_0000_0000) ++ text "M"
      else if fl.ge cost 0x408f_4000_0000_0000
      then fl.fixed 2 (fl.div cost 0x408f_4000_0000_0000) ++ text "K"
      else fl.fixed 2 cost

  -- float64(minerCount) * 1000.0 * 0.30
  unfoldable pub estimate_hardware_replacement : I64 → Text
  estimate_hardware_replacement miner_count =
      format_cost
        (fl.mul (fl.mul (fl.of_int miner_count) 0x408f_4000_0000_0000) 0x3fd3_3333_3333_3333)

  -- 5000.0 + (float64(minerCount) * 200.0)
  unfoldable pub estimate_incident_response : I64 → Text
  estimate_incident_response miner_count =
      format_cost
        (fl.add 0x40b3_8800_0000_0000 (fl.mul (fl.of_int miner_count) 0x4069_0000_0000_0000))

  -- float64(minerCount) * 150.0
  unfoldable pub estimate_maintenance : I64 → Text
  estimate_maintenance miner_count =
      format_cost (fl.mul (fl.of_int miner_count) 0x4062_c000_0000_0000)

  -- The bounds of the two tables below are 90, 70 and 50.
  unfoldable pub get_impact_level : Float64 → Text
  get_impact_level cpu_usage =
      if fl.ge cpu_usage 0x4056_8000_0000_0000
      then text "CRITICAL"
      else if fl.ge cpu_usage 0x4051_8000_0000_0000
      then text "HIGH"
      else if fl.ge cpu_usage 0x4049_0000_0000_0000
      then text "MODERATE"
      else text "LOW"

  unfoldable pub get_compute_impact : Float64 → Text
  get_compute_impact cpu_usage =
      if fl.ge cpu_usage 0x4056_8000_0000_0000
      then text "CRITICAL - System severely degraded"
      else if fl.ge cpu_usage 0x4051_8000_0000_0000
      then text "HIGH - Significant performance impact"
      else if fl.ge cpu_usage 0x4049_0000_0000_0000
      then text "MODERATE - Noticeable slowdowns"
      else text "LOW - Minor impact"
