-- ===== src/Common/Decimal.antt =====
-- Decimal numerals: how the language prints a natural number, and rounds to a fixed number of
-- digits.
use Prim.Native.Char.{Char}
use Prim.Native.String.{String, ◌∷◌, ◌++◌, char_at}
use wave_cast.Common.Tests.{ltb, if◌then◌else◌}
use Prim.Native.Nat.{ℕ, zero, suc, ◌+◌, ◌*◌, ◌/◌, ◌%◌}

abbrev pub digit_char : ℕ → Char
digit_char d = char_at "0123456789" d

-- The digits of a number before those already printed; a number has no more digits than its value
-- plus one, so that this fuel is enough.
unfoldable pub show_from : ℕ → ℕ → String → String
show_from zero n printed = printed
show_from (suc fuel) n printed =
    let more = show_from fuel (n / 10) (digit_char (n % 10) ∷ printed) in
    if ltb n 10 then digit_char n ∷ printed else more

-- `String(n)`, and a number in a template literal.
unfoldable pub show : ℕ → String
unfolding show_from
show n = show_from (suc n) n ""

-- The nearest integer to num / den, the larger of two: the number whose digits `toFixed` prints.
round_div : ℕ → ℕ → ℕ
round_div num den = (2 * num + den) / (2 * den)

-- `(num / den).toFixed(0)` and `(num / den).toFixed(1)`, below 10 ^ 21.
unfoldable pub to_fixed_zero : ℕ → ℕ → String
unfolding show round_div
to_fixed_zero num den = show (round_div num den)

unfoldable pub to_fixed_one : ℕ → ℕ → String
unfolding show round_div
to_fixed_one num den = let n = round_div (10 * num) den in show (n / 10) ++ ("." ++ show (n % 10))
