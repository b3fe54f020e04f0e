-- ===== src/Urls.antt =====
-- client/src/components/room/chat-media-preview.tsx: finding links in a text. Positions in a text are
-- counted in characters.
pub mod Slices
use Prim.Native.Char.{Char, code}
use Prim.Native.String.{String, [], ◌∷◌}
use wave_cast.Common.{
  ℕ, zero, suc, ◌+◌, ◌-◌, Bool, not, ◌||◌, Option, none, some, is_empty, is_space, to_lower_case,
  eqb, if◌then◌else◌,
}

abbrev pub chars : String → ℕ
chars [] = 0
chars (c ∷ s) = suc (chars s)

abbrev pub take_chars : ℕ → String → String
take_chars zero s = []
take_chars (suc n) [] = []
take_chars (suc n) (c ∷ s) = c ∷ take_chars n s

abbrev pub drop_chars : ℕ → String → String
drop_chars zero s = s
drop_chars (suc n) [] = []
drop_chars (suc n) (c ∷ s) = drop_chars n s

-- `text.slice(from, to)` for `from` up to `to`.
abbrev pub slice : ℕ → ℕ → String → String
slice from to text = take_chars (to - from) (drop_chars from text)

-- `[^\s<>"]` and no back quote.
is_url_char : ℕ → Bool
unfolding is_space
is_url_char c = not (is_space c || eqb c b'<' || eqb c b'>' || eqb c b'"' || eqb c b'`')

-- The text after a beginning that is, but for case, the given one in lower case.
abbrev after : String → String → Option String
after [] s = some s
after (d ∷ t) [] = none
after (d ∷ t) (c ∷ s) = elim (to_lower_case (c ∷ [])) [
  | [] ↦ none
  | e ∷ rest ↦ if eqb (code e) (code d) then after t s else none
]

run : String → ℕ
run [] = 0
run (c ∷ s) = let more = run s in if is_url_char (code c) then suc more else 0

-- The length of what `URL_PATTERN` matches at the start of a text after a scheme of so many
-- characters, or 0.
abbrev match_after : ℕ → Option String → ℕ
match_after n none = 0
match_after n (some rest) = if eqb (run rest) 0 then 0 else n + run rest

unfoldable pub match_length : String → ℕ
unfolding run is_url_char to_lower_case
match_length s =
    if eqb (match_after 8 (after "https://" s)) 0
    then match_after 7 (after "http://" s)
    else match_after 8 (after "https://" s)

-- `[.,!?;:)\]]`
pub is_trailing : ℕ → Bool
is_trailing c =
    eqb c b'.'
    || eqb c b','
    || eqb c b'!'
    || eqb c b'?'
    || eqb c b';'
    || eqb c b':'
    || eqb c b')'
    || eqb c b']'

-- A character before a text that is split already.
pub put_before : Char → String × String → String × String
unfolding is_trailing
put_before c ([], trailing) =
    if is_trailing (code c) then ([], c ∷ trailing) else (c ∷ [], trailing)
put_before c (d ∷ url, trailing) = (c ∷ d ∷ url, trailing)

-- The text without the punctuation at its end, and that punctuation.
unfoldable pub sanitize_url : String → String × String
unfolding put_before
sanitize_url [] = ([], [])
sanitize_url (c ∷ s) = put_before c (sanitize_url s)
