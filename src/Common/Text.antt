-- ===== src/Common/Text.antt =====
-- Operations of the language on texts. A text is a sequence of characters; `utf16_length` counts
-- the code units that the language's `length` counts.
use Prim.Native.Nat.{ℕ, ◌+◌, ◌-◌}
use Prim.Native.Char.{Char, code}
use Prim.Native.String.{String, [], ◌∷◌, ◌++◌, char_at}
use mathlib.Core.Bool.{Bool, true, false, ◌&&◌, ◌||◌}
use mathlib.Core.List as List
use text.Mathlib.Text.{◌==◌}
use wave_cast.Common.Tests.{ltb, leb, eqb, if◌then◌else◌}

-- ECMAScript white space and line terminators.
unfoldable pub is_space : ℕ → Bool
is_space c =
    leb 9 c && leb c 13
    || eqb c 32
    || eqb c 160
    || eqb c 0x1680
    || leb 0x2000 c && leb c 0x200a
    || eqb c 0x2028
    || eqb c 0x2029
    || eqb c 0x202f
    || eqb c 0x205f
    || eqb c 0x3000
    || eqb c 0xfeff

unfoldable pub trim_start : String → String
unfolding is_space
trim_start [] = []
trim_start (c ∷ s) = if is_space (code c) then trim_start s else c ∷ s

-- A character before a trimmed rest: dropped if it is white space at the end.
unfoldable pub before_end : Char → String → String
before_end c [] = if is_space (code c) then [] else c ∷ []
before_end c (d ∷ s) = c ∷ d ∷ s

unfoldable pub trim_end : String → String
unfolding before_end
trim_end [] = []
trim_end (c ∷ s) = before_end c (trim_end s)

-- `s.trim()`
unfoldable pub trim : String → String
unfolding trim_start trim_end is_space
trim s = trim_end (trim_start s)

abbrev lower_char : Char → Char
lower_char c =
    if leb b'A' (code c) && leb (code c) b'Z'
    then char_at "abcdefghijklmnopqrstuvwxyz" (code c - b'A')
    else c

-- `s.toLowerCase()` on the letters A to Z; other characters stay as they are.
unfoldable pub to_lower_case : String → String
to_lower_case [] = []
to_lower_case (c ∷ s) = lower_char c ∷ to_lower_case s

abbrev pub begins_with : String → String → Bool
begins_with s [] = true
begins_with [] (d ∷ t) = false
begins_with (c ∷ s) (d ∷ t) = eqb (code c) (code d) && begins_with s t

-- `s.includes(t)`
unfoldable pub includes : String → String → Bool
includes [] t = begins_with [] t
includes (c ∷ s) t = begins_with (c ∷ s) t || includes s t

-- `s.length`
unfoldable pub utf16_length : String → ℕ
utf16_length [] = 0
utf16_length (c ∷ s) = (if ltb (code c) 0x10000 then 1 else 2) + utf16_length s

unfoldable pub split_from : ℕ → String → String → List.List String
split_from sep cur [] = List.◌∷◌ cur List.[]
split_from sep cur (c ∷ s) =
    let closed = List.◌∷◌ cur (split_from sep [] s) in
    let longer = split_from sep (cur ++ c ∷ []) s in if eqb (code c) sep then closed else longer

-- `s.split(c)` for a separator of one character.
unfoldable pub split : ℕ → String → List.List String
unfolding split_from
split sep s = split_from sep [] s

-- `!s`
abbrev pub is_empty : String → Bool
is_empty s = s == ""
