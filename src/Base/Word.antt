-- ===== src/Base/Word.antt =====
-- Go's signed integers of w bits, as the numbers below 2 ^ w that have the same bits.
use Prim.Native.Nat.{ℕ, ◌+◌, ◌-◌, ◌%◌, ◌^◌}
use mathlib.Core.Bool.{Bool, not, ◌&&◌, ◌||◌}
use mathlib.Core.List.{◌∷◌}
use red_team_coin.Base.Tests.{ltb, leb, if◌then◌else◌}
use red_team_coin.Base.Strings.{Text, decimal}

abbrev pub I64 : Type 0
I64 = ℕ

abbrev pub I32 : Type 0
I32 = ℕ

abbrev pub add64 : I64 → I64 → I64
add64 a b = (a + b) % 2 ^ 64

abbrev pub is_neg64 : I64 → Bool
is_neg64 a = leb (2 ^ 63) a

abbrev pub is_neg32 : I32 → Bool
is_neg32 a = leb (2 ^ 31) a

-- a < b, signed.
abbrev pub lt64 : I64 → I64 → Bool
lt64 a b = if is_neg64 a then not (is_neg64 b) || ltb a b else not (is_neg64 b) && ltb a b

abbrev pub lt32 : I32 → I32 → Bool
lt32 a b = if is_neg32 a then not (is_neg32 b) || ltb a b else not (is_neg32 b) && ltb a b

-- strconv.FormatInt(a, 10).
unfoldable pub format_int : I64 → Text
format_int a = if is_neg64 a then b'-' ∷ decimal (2 ^ 64 - a) else decimal a
