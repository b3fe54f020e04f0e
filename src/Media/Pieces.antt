-- ===== src/Media/Pieces.antt =====
-- client/src/components/room/chat-media-preview.tsx: the pieces of a message's text.
use Prim.Native.String as S
use Prim.Native.String.{◌++◌}
use text.Mathlib.TextLemmas.{nil-append, append-nil, append_assoc}
use mathlib.Core.List as L
use wave_cast.Common.{
  ℕ, zero, suc, ◌+◌, ◌-◌, ◌≤◌, String, Bool, true, false, not, ◌≡◌, refl, sym, ap, ◌∙◌, List, [],
  ◌∷◌, arith, ◌⊎◌, Bool-cases, inl, inr, ltb, eqb, is_empty, eq_iff,
}
use wave_cast.Media.{
  Piece, anchor, piece_text, plain_unless, scan, pieces_from, match_all, chat_message_text,
  or_whole,
}
use wave_cast.Urls.{chars, take_chars, drop_chars, slice, match_length, sanitize_url}
use wave_cast.Urls.Slices.{
  drop_taken, drop_chars-drop_chars, drop_chars_all, take-drop_chars, sanitize_url-text,
}

-- What the pieces show, one after another.
abbrev pub text_of : List Piece → String
text_of [] = ""
text_of (p ∷ ps) = piece_text p ++ text_of ps

text_of-append : (ps qs : List Piece) → text_of (L.◌++◌ ps qs) ≡ text_of ps ++ text_of qs
text_of-append [] qs = sym (nil-append (text_of qs))
text_of-append (p ∷ ps) qs =
    ap (λ t. piece_text p ++ t) (text_of-append ps qs)
    ∙ sym (append_assoc (piece_text p) (text_of ps) (text_of qs))

plain_unless-text : (b : Bool) (s : String) → (b ≡ true → s ≡ "") → text_of (plain_unless b s) ≡ s
plain_unless-text true s h = sym (h refl)
plain_unless-text false s h = append-nil s

slice-text :
    (text : String) (cursor index : ℕ)
    → text_of (plain_unless (not (ltb cursor index)) (slice cursor index text))
      ≡ slice cursor index text
slice-text text cursor index =
    plain_unless-text _ _ (λ h. ap (λ n. take_chars n (drop_chars cursor text)) (no_room h))
  where
    no_room : not (ltb cursor index) ≡ true → index - cursor ≡ 0
    no_room h = ground arith

-- One match: the text before it, the link and its punctuation.
match_text :
    (text raw : String) (cursor index : ℕ) (rest : List Piece)
    → text_of (
        L.◌++◌ (plain_unless (not (ltb cursor index)) (slice cursor index text)) (
          anchor (sanitize_url raw).0
          ∷ L.◌++◌ (plain_unless (is_empty (sanitize_url raw).1) (sanitize_url raw).1) rest))
      ≡ slice cursor index text ++ (raw ++ text_of rest)
match_text text raw cursor index rest =
    let url = (sanitize_url raw).0 in
    let trailing = (sanitize_url raw).1 in
    let linked = anchor url ∷ L.◌++◌ (plain_unless (is_empty trailing) trailing) rest in
    text_of-append _ _
    ∙ (ap (λ t. t ++ text_of linked) (slice-text text cursor index)
        ∙ ap (λ t. slice cursor index text ++ t)
            (ap (λ t. url ++ t)
                (text_of-append (plain_unless (is_empty trailing) trailing) rest
                  ∙ ap (λ t. t ++ text_of rest)
                      (plain_unless-text (is_empty trailing) trailing
                        (λ e. (eq_iff trailing "").0 e)))
              ∙ (sym (append_assoc url trailing (text_of rest))
                  ∙ ap (λ t. t ++ text_of rest) (sanitize_url-text raw))))

rest_text :
    (text : String) (cursor : ℕ) → text_of (pieces_from text cursor []) ≡ drop_chars cursor text
unfolding pieces_from
rest_text text cursor = elim (Bool-cases (ltb cursor (chars text))) [
  | inl more ↦ rw more (append-nil (drop_chars cursor text))
  | inr over ↦ rw over (sym (drop_chars_all cursor text (ground arith)))
]

taken-positive :
    (n : ℕ) (c : _) (s : String)
    → eqb n 0 ≡ false
    → eqb (chars (take_chars n (S.◌∷◌ c s))) 0 ≡ false
taken-positive zero c s h = h
taken-positive (suc n) c s h = ground arith

-- The text from the cursor on is the text up to a position, and the text from there on.
cut :
    (text : String) (cursor i : ℕ)
    → cursor ≤ i
    → slice cursor i text ++ drop_chars i text ≡ drop_chars cursor text
cut text cursor i le =
    let shift : i ≡ cursor + (i - cursor) = omega arith in
    ap (λ k. slice cursor i text ++ drop_chars k text) shift
    ∙ (ap (λ t. slice cursor i text ++ t) (sym (drop_chars-drop_chars cursor (i - cursor) text))
        ∙ take-drop_chars (i - cursor) (drop_chars cursor text))

-- One character further.
next_char :
    (text s : String) (c : _) (i : ℕ) → drop_chars i text ≡ S.◌∷◌ c s → drop_chars (suc i) text ≡ s
next_char text s c i at_i =
    let one_on : suc i ≡ i + 1 = omega arith in
    ap (λ k. drop_chars k text) one_on
    ∙ (sym (drop_chars-drop_chars i 1 text) ∙ ap (λ t. drop_chars 1 t) at_i)

-- A match of so many characters at a position, when the pieces after it show the rest.
after_match :
    (text s : String) (n i cursor : ℕ) (later : List (ℕ × String))
    → drop_chars i text ≡ s
    → cursor ≤ i
    → text_of (pieces_from text (i + chars (take_chars n s)) later)
      ≡ drop_chars (i + chars (take_chars n s)) text
    → text_of (pieces_from text cursor ((i, take_chars n s) ∷ later)) ≡ drop_chars cursor text
unfolding pieces_from
after_match text s n i cursor later at_i le rest =
    let raw = take_chars n s in
    let rest_at : drop_chars (i + chars raw) text ≡ drop_chars (chars raw) s =
      sym (drop_chars-drop_chars i (chars raw) text) ∙ ap (λ t. drop_chars (chars raw) t) at_i in
    match_text text raw cursor i (pieces_from text (i + chars raw) later)
    ∙ (ap (λ t. slice cursor i text ++ (raw ++ t)) (rest ∙ rest_at)
        ∙ (ap (λ t. slice cursor i text ++ t) (drop_taken n s ∙ sym at_i) ∙ cut text cursor i le))

-- The cursor stands at or before the position, or after the match that the position is in.
scan-text :
    (text s : String) (i k cursor : ℕ)
    → drop_chars i text ≡ s
    → ((k ≡ 0) × (cursor ≤ i)) ⊎ (cursor ≡ i + k)
    → text_of (pieces_from text cursor (scan i k s)) ≡ drop_chars cursor text
unfolding scan
scan-text text S.[] i k cursor at_i place = rest_text text cursor
scan-text text (S.◌∷◌ c s) i (suc k) cursor at_i place =
    scan-text text s (suc i) k cursor (next_char text s c i at_i) (inr (ground arith))
scan-text text (S.◌∷◌ c s) i zero cursor at_i place =
    elim (Bool-cases (eqb (match_length (S.◌∷◌ c s)) 0)) [
      | inl none_here ↦
          rw none_here (
            scan-text text s (suc i) 0 cursor (next_char text s c i at_i)
              (inl (refl, ground arith)))
      | inr found ↦
          let n = match_length (S.◌∷◌ c s) in
          let raw = take_chars n (S.◌∷◌ c s) in
          let some_chars : eqb (chars raw) 0 ≡ false = taken-positive n c s found in
          let le : cursor ≤ i = ground arith in
          let later =
            scan-text text s (suc i) (chars raw - 1) (i + chars raw) (next_char text s c i at_i)
              (inr (ground arith)) in
          rw found
            (after_match text (S.◌∷◌ c s) n i cursor (scan (suc i) (chars raw - 1) s) at_i le later)
    ]

-- What `ChatMessageText` renders is the text of the message, no more and no less, whatever links
-- are in it and whatever punctuation is cut off them.
pub chat_message_text-text : (text : String) → text_of (chat_message_text text) ≡ text
unfolding chat_message_text match_all
chat_message_text-text text =
    or_whole-text text (pieces_from text 0 (scan 0 0 text))
      (scan-text text text 0 0 0 refl (inr (omega arith)))
  where
    or_whole-text : (t : String) (ps : List Piece) → text_of ps ≡ t → text_of (or_whole t ps) ≡ t
    or_whole-text t [] h = append-nil t
    or_whole-text t (p ∷ ps) h = h
