-- ===== src/LiveRoom/Timer.antt =====
-- client/src/components/room/live-room-page.tsx: the room's duration as text and as seconds.
pub mod RoundTrip
use Prim.Native.Char.{Char, code}
use Prim.Native.String.{String, [], ◌∷◌, ◌++◌}
use mathlib.Core.List as L
use wave_cast.Common.{
  ℕ, ◌+◌, ◌*◌, ◌-◌, ◌/◌, ◌%◌, Bool, true, false, ◌&&◌, ◌||◌, Option, none, some, utf16_length,
  trim_start, split, map, any, is_some, not, ◌≡◌, refl, ltb, leb, eqb, if◌then◌else◌,
}
use wave_cast.Common.Decimal.{show}
use wave_cast.Common.Int.{ℤ, pos, negsuc, sub_ℕ, pos_part, ◌+ℤ◌, scale}

-- `s.padStart(2, "0")`
pub pad_start_two : String → String
pad_start_two [] = "00"
pad_start_two (c ∷ s) = if eqb (utf16_length (c ∷ s)) 1 then "0" ++ (c ∷ s) else c ∷ s

unfoldable pub format_timer : ℤ → String
unfolding pad_start_two show utf16_length
format_timer total_seconds =
    let safe_seconds = pos_part total_seconds in
    let hours = safe_seconds / 3600 in
    let minutes = safe_seconds % 3600 / 60 in
    let seconds = safe_seconds % 60 in
    pad_start_two (show hours)
    ++ (":" ++ (pad_start_two (show minutes) ++ (":" ++ pad_start_two (show seconds))))

is_digit : ℕ → Bool
is_digit c = leb b'0' c && leb c b'9'

-- The value of the digits that a text begins with, after those already read.
digits_from : ℕ → String → ℕ
digits_from value [] = value
digits_from value (c ∷ s) =
    let more = digits_from (10 * value + (code c - b'0')) s in
    if is_digit (code c) then more else value

begins_with_digit : String → Bool
begins_with_digit [] = false
begins_with_digit (c ∷ s) = is_digit (code c)

read_digits : String → Option ℕ
read_digits s = if begins_with_digit s then some (digits_from 0 s) else none

-- `none` is NaN.
negated : Option ℕ → Option ℤ
negated none = none
negated (some n) = some (sub_ℕ 0 n)

positive : Option ℕ → Option ℤ
positive none = none
positive (some n) = some (pos n)

signed : String → Option ℤ
signed [] = none
signed (c ∷ s) =
    if eqb (code c) b'-'
    then negated (read_digits s)
    else (if eqb (code c) b'+' then positive (read_digits s) else positive (read_digits (c ∷ s)))

-- `Number.parseInt(s, 10)`
pub parse_int : String → Option ℤ
unfolding signed negated positive read_digits begins_with_digit digits_from is_digit trim_start
parse_int s = signed (trim_start s)

-- `parts[0] * 3600 + parts[1] * 60 + parts[2]`, or without hours; 0 where a part is NaN or the
-- number of parts is another.
pub combine : L.List (Option ℤ) → ℤ
combine (L.◌∷◌ (some h) (L.◌∷◌ (some m) (L.◌∷◌ (some s) L.[]))) = scale 3600 h +ℤ scale 60 m +ℤ s
combine (L.◌∷◌ (some m) (L.◌∷◌ (some s) L.[])) = scale 60 m +ℤ s
combine _ = pos 0

unfoldable pub parse_duration : String → ℤ
unfolding combine parse_int split
parse_duration value = combine (map parse_int (split b':' value))
