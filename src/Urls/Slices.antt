-- ===== src/Urls/Slices.antt =====
-- client/src/components/room/chat-media-preview.tsx: cutting texts in pieces.
use Prim.Native.Char.{Char, code}
use Prim.Native.String.{String, [], ◌∷◌, ◌++◌}
use text.Mathlib.TextLemmas.{nil-append, cons-append}
use wave_cast.Common.{ℕ, zero, suc, ◌+◌, ◌≤◌, ◌≡◌, refl, sym, ap, ◌∙◌, arith, Bool-cases, inl, inr}
use wave_cast.Urls.{chars, take_chars, drop_chars, is_trailing, put_before, sanitize_url}

pub drop_taken : (n : ℕ) (s : String) → take_chars n s ++ drop_chars (chars (take_chars n s)) s ≡ s
drop_taken zero s = nil-append s
drop_taken (suc n) [] = nil-append []
drop_taken (suc n) (c ∷ s) = cons-append c (take_chars n s) _ ∙ ap (λ t. c ∷ t) (drop_taken n s)

drop_nil : (n : ℕ) → drop_chars n [] ≡ []
drop_nil zero = refl
drop_nil (suc n) = refl

pub drop_chars-drop_chars :
    (m n : ℕ) (s : String) → drop_chars n (drop_chars m s) ≡ drop_chars (m + n) s
drop_chars-drop_chars zero n s = ap (λ k. drop_chars k s) (omega arith)
drop_chars-drop_chars (suc m) n [] = drop_nil n ∙ sym (drop_nil (suc m + n))
drop_chars-drop_chars (suc m) n (c ∷ s) =
    let shift : suc (m + n) ≡ suc m + n = omega arith in
    drop_chars-drop_chars m n s ∙ ap (λ k. drop_chars k (c ∷ s)) shift

pub drop_chars_all : (n : ℕ) (s : String) → chars s ≤ n → drop_chars n s ≡ []
drop_chars_all n [] h = drop_nil n
drop_chars_all zero (c ∷ s) h = absurd (omega arith)
drop_chars_all (suc n) (c ∷ s) h = drop_chars_all n s (omega arith)

pub take-drop_chars : (n : ℕ) (s : String) → take_chars n s ++ drop_chars n s ≡ s
take-drop_chars zero s = nil-append s
take-drop_chars (suc n) [] = nil-append []
take-drop_chars (suc n) (c ∷ s) =
    cons-append c (take_chars n s) _ ∙ ap (λ t. c ∷ t) (take-drop_chars n s)

put_before-text :
    (c : Char) (p : String × String) → (put_before c p).0 ++ (put_before c p).1 ≡ c ∷ (p.0 ++ p.1)
unfolding put_before
put_before-text c ([], trailing) = elim (Bool-cases (is_trailing (code c))) [
  | inl ends ↦ rw ends (nil-append (c ∷ trailing) ∙ ap (λ t. c ∷ t) (sym (nil-append trailing)))
  | inr more ↦ rw more (cons-append c [] trailing)
]
put_before-text c (d ∷ url, trailing) = cons-append c (d ∷ url) trailing

pub sanitize_url-text : (s : String) → (sanitize_url s).0 ++ (sanitize_url s).1 ≡ s
unfolding sanitize_url
sanitize_url-text [] = nil-append []
sanitize_url-text (c ∷ s) =
    put_before-text c (sanitize_url s) ∙ ap (λ t. c ∷ t) (sanitize_url-text s)
