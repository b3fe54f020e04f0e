-- ===== src/RoomSettings/Ids.antt =====
-- client/src/app/room-settings/page.tsx: the ids that a comma separates.
use Prim.Native.Char.{Char, code}
use Prim.Native.String.{String, [], ◌∷◌, ◌++◌}
use mathlib.Core.List as L
use text.Mathlib.TextLemmas.{nil-append, cons-append}
use wave_cast.Common.{
  ℕ, ◌≡◌, refl, ap, ◌∙◌, false, not, List, map, filter, All, eqb, is_space, is_empty, trim,
  trim_start, trim_end, before_end, split, split_from, Bool-cases, inl, inr,
}
use wave_cast.Common.Split.{Free, pieces-Free, split_from-end, split_from-first}
use wave_cast.RoomSettings.{parse_ids}

-- An id as it is read: no comma, no white space around it, not empty.
abbrev pub IsTidy : String → Type 0
IsTidy id = Free b',' id × (trim id ≡ id) × (is_empty id ≡ false)

-- `ids.join(",")`
pub join : List String → String
join L.[] = []
join (L.◌∷◌ id L.[]) = id
join (L.◌∷◌ id (L.◌∷◌ next ids)) = id ++ ("," ++ join (L.◌∷◌ next ids))

trim_start-Free : (sep : ℕ) (s : String) → Free sep s → Free sep (trim_start s)
unfolding trim_start
trim_start-Free sep [] f = f
trim_start-Free sep (c ∷ s) (n, f) = elim (Bool-cases (is_space (code c))) [
  | inl space ↦ rw space (trim_start-Free sep s f)
  | inr other ↦ rw other (n, f)
]

before_end-Free :
    (sep : ℕ) (c : Char) (s : String)
    → eqb (code c) sep ≡ false
    → Free sep s
    → Free sep (before_end c s)
unfolding before_end
before_end-Free sep c [] n f = elim (Bool-cases (is_space (code c))) [
  | inl space ↦ rw space tt
  | inr other ↦ rw other (n, tt)
]
before_end-Free sep c (d ∷ s) n f = (n, f)

trim_end-Free : (sep : ℕ) (s : String) → Free sep s → Free sep (trim_end s)
unfolding trim_end
trim_end-Free sep [] f = f
trim_end-Free sep (c ∷ s) (n, f) = before_end-Free sep c (trim_end s) n (trim_end-Free sep s f)

before_end-trim_end :
    (c : Char) (s : String) → trim_end s ≡ s → trim_end (before_end c s) ≡ before_end c s
unfolding before_end trim_end
before_end-trim_end c [] h = elim (Bool-cases (is_space (code c))) [
  | inl space ↦ rw space refl
  | inr other ↦ rw (other, trim_end, before_end, other) refl
]
before_end-trim_end c (d ∷ s) h = ap (before_end c) h

trim_end-trim_end : (s : String) → trim_end (trim_end s) ≡ trim_end s
unfolding trim_end
trim_end-trim_end [] = refl
trim_end-trim_end (c ∷ s) = before_end-trim_end c (trim_end s) (trim_end-trim_end s)

before_end-trim_start :
    (c : Char) (s : String)
    → is_space (code c) ≡ false
    → trim_start (before_end c s) ≡ before_end c s
unfolding before_end trim_start
before_end-trim_start c [] h = rw (h, trim_start, h) refl
before_end-trim_start c (d ∷ s) h = rw h refl

trim_start-trim : (s : String) → trim_start (trim_end (trim_start s)) ≡ trim_end (trim_start s)
unfolding trim_start trim_end
trim_start-trim [] = refl
trim_start-trim (c ∷ s) = elim (Bool-cases (is_space (code c))) [
  | inl space ↦ rw space (trim_start-trim s)
  | inr other ↦ rw other (before_end-trim_start c (trim_end s) other)
]

trim-trim : (s : String) → trim (trim s) ≡ trim s
unfolding trim
trim-trim s = ap trim_end (trim_start-trim s) ∙ trim_end-trim_end (trim_start s)

split_from-comma :
    (rest cur : String) → split_from b',' cur ("," ++ rest) ≡ L.◌∷◌ cur (split_from b',' [] rest)
unfolding split_from
split_from-comma rest cur = rw (cons-append, nil-append) refl

split-join :
    (id : String) (ids : List String)
    → All IsTidy (L.◌∷◌ id ids)
    → split b',' (join (L.◌∷◌ id ids)) ≡ L.◌∷◌ id ids
unfolding split join
split-join id L.[] ((f, _, _), _) = split_from-end b',' id f
split-join id (L.◌∷◌ next ids) ((f, _, _), tidy) =
    let rest = join (L.◌∷◌ next ids) in
    split_from-first b',' id rest f ("," ++ rest) (split_from-comma rest)
    ∙ ap (L.◌∷◌ id) (split-join next ids tidy)

tidy_kept :
    (ids : List String) → All IsTidy ids → filter (λ item. not (is_empty item)) (map trim ids) ≡ ids
tidy_kept L.[] tidy = refl
tidy_kept (L.◌∷◌ id ids) ((_, trimmed, some_id), tidy) =
    rw (trimmed, some_id) (ap (L.◌∷◌ id) (tidy_kept ids tidy))

parse_ids-join : (ids : List String) → All IsTidy ids → parse_ids (join ids) ≡ ids
unfolding parse_ids split join split_from trim trim_start trim_end
parse_ids-join L.[] tidy = refl
parse_ids-join (L.◌∷◌ id ids) tidy =
    ap (λ pieces. filter (λ item. not (is_empty item)) (map trim pieces)) (split-join id ids tidy)
    ∙ tidy_kept (L.◌∷◌ id ids) tidy

pieces-IsTidy :
    (pieces : List String)
    → All (Free b',') pieces
    → All IsTidy (filter (λ item. not (is_empty item)) (map trim pieces))
unfolding trim
pieces-IsTidy L.[] f = tt
pieces-IsTidy (L.◌∷◌ s pieces) (g, f) = elim (Bool-cases (is_empty (trim s))) [
  | inl blank ↦ rw blank (pieces-IsTidy pieces f)
  | inr some_id ↦ rw some_id (
    (trim_end-Free b',' (trim_start s) (trim_start-Free b',' s g), trim-trim s, some_id),
    pieces-IsTidy pieces f,
  )
]

-- The ids that are read hold no comma, have no white space around them and are not empty, and
-- any list of such ids is read back from its members with commas between them.
pub parse_ids-IsTidy :
    (text : String) (ids : List String)
    → All IsTidy (parse_ids text) × (All IsTidy ids → parse_ids (join ids) ≡ ids)
unfolding parse_ids split
parse_ids-IsTidy text ids =
    (pieces-IsTidy (split b',' text) (pieces-Free b',' [] text tt), parse_ids-join ids)
