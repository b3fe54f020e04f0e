-- ===== src/Media.antt =====
-- client/src/components/room/chat-media-preview.tsx: the links of a message, and its text with links.
pub mod Links
pub mod Pieces
pub mod Cards
use Prim.Native.String as S
use wave_cast.Common.{
  ℕ, zero, suc, ◌+◌, ◌-◌, String, Bool, true, false, not, List, [], ◌∷◌, ◌++◌, Option, none, some,
  filter, has, last?, or_else, take, is_empty, to_lower_case, split, ltb, eqb, ◌==◌, if◌then◌else◌,
}
use wave_cast.Urls.{chars, take_chars, drop_chars, slice, match_length, sanitize_url}

abbrev image_extensions : List String
image_extensions = "avif" ∷ "gif" ∷ "jpeg" ∷ "jpg" ∷ "png" ∷ "svg" ∷ "webp" ∷ []

abbrev video_extensions : List String
video_extensions = "m4v" ∷ "mov" ∷ "mp4" ∷ "mpeg" ∷ "mpg" ∷ "ogg" ∷ "ogv" ∷ "webm" ∷ []

-- The matches of `URL_PATTERN` with their positions, in the text from a position on, of which some
-- characters belong to the match before.
pub scan : ℕ → ℕ → String → List (ℕ × String)
unfolding match_length
scan index skip S.[] = []
scan index (suc skip) (S.◌∷◌ c s) = scan (suc index) skip s
scan index zero (S.◌∷◌ c s) =
    let n = match_length (S.◌∷◌ c s) in
    let raw = take_chars n (S.◌∷◌ c s) in
    let found = (index, raw) ∷ scan (suc index) (chars raw - 1) s in
    let rest = scan (suc index) 0 s in if eqb n 0 then rest else found

unfoldable pub match_all : String → List (ℕ × String)
unfolding scan
match_all text = scan 0 0 text

pub data LinkKind : Type 0 where
  image video link : LinkKind

pub record MessageLink : Type 0 where
  pub url : String
  pub host : String
  pub title : String
  pub kind : LinkKind

-- What the browser's `URL` reads of a link.
pub record Url : Type 0 where
  pub hostname : String
  pub pathname : String

unfoldable pub get_file_extension : String → String
unfolding split
get_file_extension pathname =
    let filename = or_else (last? (split b'/' pathname)) "" in
    to_lower_case (or_else (last? (split b'.' filename)) "")

pub get_link_kind : Url → LinkKind
unfolding get_file_extension
get_link_kind url =
    let extension = get_file_extension url.pathname in
    if has extension image_extensions
    then image
    else (if has extension video_extensions then video else link)

-- `replace(/^www\./, "")`
abbrev without_www : String → String
without_www host = if take_chars 4 host == "www." then drop_chars 4 host else host

-- The browser's `new URL` and `decodeURIComponent` are arguments; `none` is a throw.
module _ (parse_url : String → Option Url) (decode_uri_component : String → Option String) where
  pub get_link_title : Url → String
  unfolding split
  get_link_title url =
      let filename = last? (filter (λ part. not (is_empty part)) (split b'/' url.pathname)) in
      elim filename [
        | none ↦ without_www url.hostname
        | some name ↦ or_else (decode_uri_component name) name
      ]

  abbrev pub message_link : String → Url → MessageLink
  message_link url parsed = record {
    url = url;
    host = without_www parsed.hostname;
    title = get_link_title parsed;
    kind = get_link_kind parsed;
  }

  -- The loop over the matches, with the links seen before.
  pub collect_links : List String → List (ℕ × String) → List MessageLink
  unfolding sanitize_url
  collect_links seen [] = []
  collect_links seen ((index, raw) ∷ rest) =
      let url = (sanitize_url raw).0 in
      let skipped = collect_links seen rest in
      let noted = collect_links (url ∷ seen) rest in
      if has url seen
      then skipped
      else elim (parse_url url) [ none ↦ skipped | some parsed ↦ message_link url parsed ∷ noted ]

  pub get_message_links : String → List MessageLink
  unfolding collect_links match_all
  get_message_links text = collect_links [] (match_all text)

  -- The links that a message shows previews of.
  pub previewed_links : String → List MessageLink
  unfolding get_message_links
  previewed_links text = take 2 (get_message_links text)

-- The pieces that `ChatMessageText` renders: text and links.
pub data Piece : Type 0 where
  plain anchor : String → Piece

abbrev pub piece_text : Piece → String
piece_text (plain s) = s
piece_text (anchor s) = s

abbrev pub plain_unless : Bool → String → List Piece
plain_unless true s = []
plain_unless false s = plain s ∷ []

-- The loop over the matches from a cursor on, and the rest of the text after it.
pub pieces_from : String → ℕ → List (ℕ × String) → List Piece
unfolding sanitize_url
pieces_from text cursor [] =
    if ltb cursor (chars text) then plain (drop_chars cursor text) ∷ [] else []
pieces_from text cursor ((index, raw) ∷ rest) =
    let clean = sanitize_url raw in
    plain_unless (not (ltb cursor index)) (slice cursor index text)
    ++ (anchor clean.0
        ∷ (plain_unless (is_empty clean.1) clean.1 ++ pieces_from text (index + chars raw) rest))

abbrev pub or_whole : String → List Piece → List Piece
or_whole text [] = plain text ∷ []
or_whole text pieces = pieces

unfoldable pub chat_message_text : String → List Piece
unfolding pieces_from match_all
chat_message_text text = or_whole text (pieces_from text 0 (match_all text))
