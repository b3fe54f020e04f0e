-- ===== src/Common/Sort.antt =====
-- `Array.prototype.sort` with a comparison function: stable, and a permutation. The comparison
-- of two elements is an integer; an element goes behind another when it is positive.
use mathlib.Core.Path.{◌≡◌, refl}
use mathlib.Core.Logic.{inl, inr}
use mathlib.Core.Bool.{true, false}
use mathlib.Core.List.{List, [], ◌∷◌, Perm}
use mathlib.Core.List.Perm
use wave_cast.Common.Int.{ℤ, is_positive}
use Prim.Native.String.{String}
use mathlib.Core.List.{map}
use mathlib.Core.Bool.{◌||◌}
use native.Mathlib.Omega.{arith}
use text.Mathlib.Text.{◌==◌}
use text.Mathlib.TextEquality.{eq_iff}
use wave_cast.Common.Lists.{All, has, Distinct}
use wave_cast.Common.Tests.{if◌then◌else◌, Bool-cases}

module _ {ℓ} {A : Type ℓ} (cmp : A → A → ℤ) where
  pub insert_sorted : A → List A → List A
  insert_sorted x [] = x ∷ []
  insert_sorted x (y ∷ ys) = if is_positive (cmp x y) then y ∷ insert_sorted x ys else x ∷ y ∷ ys

  unfoldable pub sort : List A → List A
  unfolding insert_sorted
  sort [] = []
  sort (x ∷ xs) = insert_sorted x (sort xs)

  insert_sorted-perm : (x : A) (ys : List A) → Perm (insert_sorted x ys) (x ∷ ys)
  unfolding insert_sorted
  insert_sorted-perm x [] = Perm.refl _
  insert_sorted-perm x (y ∷ ys) = elim (Bool-cases (is_positive (cmp x y))) [
    | inl later ↦ rw later (Perm.trans (Perm.cons y (insert_sorted-perm x ys)) (Perm.swap x y ys))
    | inr first ↦ rw first (Perm.refl _)
  ]

  pub sort-perm : (xs : List A) → Perm (sort xs) xs
  unfolding sort
  sort-perm [] = Perm.refl _
  sort-perm (x ∷ xs) = Perm.trans (insert_sorted-perm x (sort xs)) (Perm.cons x (sort-perm xs))

  -- No element stands before one that it should follow.
  abbrev pub IsSorted : List A → Type 0
  IsSorted [] = Unit
  IsSorted (x ∷ xs) = All (λ y. is_positive (cmp x y) ≡ false) xs × IsSorted xs

  insert_sorted-All :
      (P : A → Type 0) (x : A) (ys : List A) → P x → All P ys → All P (insert_sorted x ys)
  unfolding insert_sorted
  insert_sorted-All P x [] p h = (p, h)
  insert_sorted-All P x (y ∷ ys) p (q, h) = elim (Bool-cases (is_positive (cmp x y))) [
    | inl later ↦ rw later (q, insert_sorted-All P x ys p h)
    | inr first ↦ rw first (p, (q, h))
  ]

  pub sort-All : (P : A → Type 0) (xs : List A) → All P xs → All P (sort xs)
  unfolding sort
  sort-All P [] h = tt
  sort-All P (x ∷ xs) (p, h) = insert_sorted-All P x (sort xs) p (sort-All P xs h)

  -- The keys of the elements: sorting keeps which there are, and that they are distinct.
  module _ (key : A → String) where
    has-insert_sorted :
        (k : String) (x : A) (ys : List A)
        → has k (map key (insert_sorted x ys)) ≡ (key x == k || has k (map key ys))
    unfolding insert_sorted
    has-insert_sorted k x [] = refl
    has-insert_sorted k x (y ∷ ys) = ground (arith, has-insert_sorted k x ys)

    pub has-sort : (k : String) (xs : List A) → has k (map key (sort xs)) ≡ has k (map key xs)
    unfolding sort
    has-sort k [] = refl
    has-sort k (x ∷ xs) = rw (has-insert_sorted k x (sort xs), has-sort k xs) refl

    Distinct-insert_sorted :
        (x : A) (ys : List A)
        → has (key x) (map key ys) ≡ false
        → Distinct (map key ys)
        → Distinct (map key (insert_sorted x ys))
    unfolding insert_sorted
    Distinct-insert_sorted x [] n d = (refl, tt)
    Distinct-insert_sorted x (y ∷ ys) n (m, d) = ground (
      arith,
      Distinct-insert_sorted x ys,
      has-insert_sorted (key y) x ys,
      eq_iff (key x) (key y),
      eq_iff (key y) (key x),
    )

    pub Distinct-sort : (xs : List A) → Distinct (map key xs) → Distinct (map key (sort xs))
    unfolding sort
    Distinct-sort [] d = tt
    Distinct-sort (x ∷ xs) (n, d) =
        Distinct-insert_sorted x (sort xs) (rw (has-sort (key x) xs) n) (Distinct-sort xs d)

  -- The comparison orders its elements: of two one may stand first, and this is transitive.
  module _ (turn : (x y : A) → is_positive (cmp x y) ≡ true → is_positive (cmp y x) ≡ false)
      (chain : (x y z : A)
        → is_positive (cmp x y) ≡ false
        → is_positive (cmp y z) ≡ false
        → is_positive (cmp x z) ≡ false) where
    before-All :
        (x y : A) (ys : List A)
        → is_positive (cmp x y) ≡ false
        → All (λ z. is_positive (cmp y z) ≡ false) ys
        → All (λ z. is_positive (cmp x z) ≡ false) ys
    before-All x y [] e h = h
    before-All x y (z ∷ ys) e (f, h) = (chain x y z e f, before-All x y ys e h)

    insert_sorted-IsSorted : (x : A) (ys : List A) → IsSorted ys → IsSorted (insert_sorted x ys)
    unfolding insert_sorted
    insert_sorted-IsSorted x [] h = (tt, tt)
    insert_sorted-IsSorted x (y ∷ ys) (f, h) = elim (Bool-cases (is_positive (cmp x y))) [
      | inl later ↦
          rw later (insert_sorted-All _ x ys (turn x y later) f, insert_sorted-IsSorted x ys h)
      | inr first ↦ rw first ((first, before-All x y ys first f), (f, h))
    ]

    pub sort-IsSorted : (xs : List A) → IsSorted (sort xs)
    unfolding sort
    sort-IsSorted [] = tt
    sort-IsSorted (x ∷ xs) = insert_sorted-IsSorted x (sort xs) (sort-IsSorted xs)
