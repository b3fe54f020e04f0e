-- ===== src/Common/Split.antt =====
-- Splitting a text at a separator: what pieces there are, and what they are of.
use Prim.Native.Nat.{ℕ}
use Prim.Native.Char.{code}
use Prim.Native.String.{String, [], ◌∷◌, ◌++◌}
use mathlib.Core.List as L
use mathlib.Core.Path.{◌≡◌, refl, sym, ap, ◌∙◌, subst}
use mathlib.Core.Logic.{inl, inr}
use mathlib.Core.Bool.{false}
use text.Mathlib.TextLemmas.{nil-append, cons-append, append-nil, append_assoc}
use wave_cast.Common.Tests.{eqb, Bool-cases}
use wave_cast.Common.Lists.{All}
use wave_cast.Common.Text.{split_from}

-- No separator is in the text.
abbrev pub Free : ℕ → String → Type 0
Free sep [] = Unit
Free sep (c ∷ s) = (eqb (code c) sep ≡ false) × Free sep s

Free-append : (sep : ℕ) (s t : String) → Free sep s → Free sep t → Free sep (s ++ t)
Free-append sep [] t f g = subst (Free sep) (sym (nil-append t)) g
Free-append sep (c ∷ s) t (n, f) g =
    subst (Free sep) (sym (cons-append c s t)) (n, Free-append sep s t f g)

pub pieces-Free : (sep : ℕ) (cur s : String) → Free sep cur → All (Free sep) (split_from sep cur s)
unfolding split_from
pieces-Free sep cur [] f = (f, tt)
pieces-Free sep cur (c ∷ s) f = elim (Bool-cases (eqb (code c) sep)) [
  | inl is_sep ↦ rw is_sep (f, pieces-Free sep [] s tt)
  | inr other ↦
      rw other (pieces-Free sep (cur ++ c ∷ []) s (Free-append sep cur (c ∷ []) f (other, tt)))
]

-- A piece without a separator goes to what is read so far.
split_from-Free :
    (sep : ℕ) (cur s rest : String)
    → Free sep s
    → split_from sep cur (s ++ rest) ≡ split_from sep (cur ++ s) rest
unfolding split_from
split_from-Free sep cur [] rest f = rw (append-nil, nil-append) refl
split_from-Free sep cur (c ∷ s) rest (n, f) =
    let joined : (cur ++ c ∷ []) ++ s ≡ cur ++ c ∷ s =
      append_assoc cur (c ∷ []) s
      ∙ ap (λ t. cur ++ t) (cons-append c [] s ∙ ap (λ t. c ∷ t) (nil-append s)) in
    rw (cons-append, n)
      (split_from-Free sep (cur ++ c ∷ []) s rest f ∙ ap (λ t. split_from sep t rest) joined)

pub split_from-end : (sep : ℕ) (s : String) → Free sep s → split_from sep [] s ≡ L.◌∷◌ s L.[]
unfolding split_from
split_from-end sep s f =
    ap (split_from sep []) (sym (append-nil s))
    ∙ split_from-Free sep [] s [] f
    ∙ ap (λ t. L.◌∷◌ t L.[]) (nil-append s)

-- The first piece and the rest.
pub split_from-first :
    (sep : ℕ) (s rest : String)
    → Free sep s
    → (after : String)
    → ((cur : String) → split_from sep cur after ≡ L.◌∷◌ cur (split_from sep [] rest))
    → split_from sep [] (s ++ after) ≡ L.◌∷◌ s (split_from sep [] rest)
split_from-first sep s rest f after at_sep =
    split_from-Free sep [] s after f
    ∙ at_sep ([] ++ s)
    ∙ ap (λ t. L.◌∷◌ t (split_from sep [] rest)) (nil-append s)
