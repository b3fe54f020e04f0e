-- ===== src/Common/Lists.antt =====
-- Lists with Boolean tests, and lists of distinct texts, which are the program's sets of ids.
use Prim.Native.Nat.{ℕ, zero, suc, ◌+◌, ◌≤◌}
use Prim.Native.String.{String}
use mathlib.Core.Path.{◌≡◌, refl}
use mathlib.Core.Bool.{Bool, true, false, not, ◌&&◌, ◌||◌}
use mathlib.Core.Option.{Option, none, some}
use mathlib.Core.List.{List, [], ◌∷◌, ◌++◌}
use native.Mathlib.Omega.{arith}
use text.Mathlib.Text.{◌==◌}
use text.Mathlib.TextEquality.{eq_iff}
use wave_cast.Common.Tests.{if◌then◌else◌}

module _ {ℓ} {A : Type ℓ} where
  abbrev pub length : List A → ℕ
  length [] = 0
  length (x ∷ xs) = suc (length xs)

  abbrev pub filter : (A → Bool) → List A → List A
  filter p [] = []
  filter p (x ∷ xs) = if p x then x ∷ filter p xs else filter p xs

  abbrev pub any : (A → Bool) → List A → Bool
  any p [] = false
  any p (x ∷ xs) = p x || any p xs

  abbrev pub find : (A → Bool) → List A → Option A
  find p [] = none
  find p (x ∷ xs) = if p x then some x else find p xs

  abbrev pub head? : List A → Option A
  head? [] = none
  head? (x ∷ xs) = some x

  abbrev pub last? : List A → Option A
  last? [] = none
  last? (x ∷ []) = some x
  last? (x ∷ y ∷ xs) = last? (y ∷ xs)

  -- An index that is known to be in range; the default stands for `undefined`.
  abbrev pub get_or : List A → ℕ → A → A
  get_or [] i d = d
  get_or (x ∷ xs) zero d = x
  get_or (x ∷ xs) (suc i) d = get_or xs i d

  abbrev pub take : ℕ → List A → List A
  take zero xs = []
  take (suc n) [] = []
  take (suc n) (x ∷ xs) = x ∷ take n xs

  abbrev pub drop : ℕ → List A → List A
  drop zero xs = xs
  drop (suc n) [] = []
  drop (suc n) (x ∷ xs) = drop n xs

  pub length-append : (xs ys : List A) → length (xs ++ ys) ≡ length xs + length ys
  length-append [] ys = omega arith
  length-append (x ∷ xs) ys = omega (arith, length-append xs ys)

  pub any-append : (p : A → Bool) (xs ys : List A) → any p (xs ++ ys) ≡ (any p xs || any p ys)
  any-append p [] ys = refl
  any-append p (x ∷ xs) ys = ground (arith, any-append p xs ys)

  pub filter-append :
      (p : A → Bool) (xs ys : List A) → filter p (xs ++ ys) ≡ filter p xs ++ filter p ys
  filter-append p [] ys = refl
  filter-append p (x ∷ xs) ys = ground (arith, filter-append p xs ys)

  pub filter_all : (p : A → Bool) (xs : List A) → any (λ x. not (p x)) xs ≡ false → filter p xs ≡ xs
  filter_all p [] h = refl
  filter_all p (x ∷ xs) h = ground (arith, filter_all p xs)

  pub length-filter-le : (p : A → Bool) (xs : List A) → length (filter p xs) ≤ length xs
  length-filter-le p [] = omega arith
  length-filter-le p (x ∷ xs) = ground (arith, length-filter-le p xs)

  pub any-filter : (p q : A → Bool) (xs : List A) → any p (filter q xs) ≡ any (λ x. p x && q x) xs
  any-filter p q [] = refl
  any-filter p q (x ∷ xs) = ground (arith, any-filter p q xs)

module _ {ℓ κ} {A : Type ℓ} (P : A → Type κ) where
  abbrev pub All : List A → Type κ
  All [] = Unit
  All (x ∷ xs) = P x × All xs

  pub All-append : (xs ys : List A) → All xs → All ys → All (xs ++ ys)
  All-append [] ys h k = k
  All-append (x ∷ xs) ys (p, h) k = (p, All-append xs ys h k)

  pub All-filter : (p : A → Bool) (xs : List A) → All xs → All (filter p xs)
  All-filter p [] h = h
  All-filter p (x ∷ xs) (q, h) =
      elim (p x) as (λ b. All (if b then x ∷ filter p xs else filter p xs)) [
        | true ↦ (q, All-filter p xs h)
        | false ↦ All-filter p xs h
      ]

-- Ids: membership, `Set.add`, `Set.delete`, and that no id occurs twice.
abbrev pub has : String → List String → Bool
has k [] = false
has k (x ∷ xs) = x == k || has k xs

abbrev pub Distinct : List String → Type 0
Distinct [] = Unit
Distinct (x ∷ xs) = (has x xs ≡ false) × Distinct xs

unfoldable pub add : String → List String → List String
add k xs = if has k xs then xs else xs ++ k ∷ []

unfoldable pub delete : String → List String → List String
delete k xs = filter (λ x. not (x == k)) xs

pub has-append : (k : String) (xs ys : List String) → has k (xs ++ ys) ≡ (has k xs || has k ys)
has-append k [] ys = refl
has-append k (x ∷ xs) ys = ground (arith, has-append k xs ys)

pub has-delete :
    (k j : String) (xs : List String) → has j (delete k xs) ≡ (has j xs && not (k == j))
unfolding delete
has-delete k j [] = refl
has-delete k j (x ∷ xs) = ground (arith, has-delete k j xs, eq_iff x j, eq_iff x k, eq_iff k j)

pub has-add : (k j : String) (xs : List String) → has j (add k xs) ≡ (has j xs || k == j)
unfolding add
has-add k j xs = ground (arith, has-append j xs (k ∷ []), eq_iff k j)

pub Distinct-append_one :
    (xs : List String) (k : String) → Distinct xs → has k xs ≡ false → Distinct (xs ++ k ∷ [])
Distinct-append_one [] k d h = (refl, tt)
Distinct-append_one (x ∷ xs) k (n, d) h =
    ground (arith, Distinct-append_one xs k d, has-append x xs (k ∷ []), eq_iff x k, eq_iff k x)

pub Distinct-add : (k : String) (xs : List String) → Distinct xs → Distinct (add k xs)
unfolding add
Distinct-add k xs d = ground (arith, Distinct-append_one xs k d)

pub Distinct-delete : (k : String) (xs : List String) → Distinct xs → Distinct (delete k xs)
unfolding delete
Distinct-delete k [] d = tt
Distinct-delete k (x ∷ xs) (n, d) =
    let h : has x (filter (λ y. not (y == k)) xs) ≡ (has x xs && not (k == x)) =
      has-delete k x xs in
    ground (arith, Distinct-delete k xs d)
