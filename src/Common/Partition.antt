-- ===== src/Common/Partition.antt =====
-- Splitting a list by a Boolean test.
use mathlib.Core.Path.{◌≡◌, refl, ap, subst}
use mathlib.Core.Logic.{inl, inr}
use mathlib.Core.Bool.{Bool, true, not}
use mathlib.Core.List.{List, [], ◌∷◌, ◌++◌, Perm, perm_middle}
use mathlib.Core.List.Perm
use wave_cast.Common.Tests.{Bool-cases}
use wave_cast.Common.Lists.{filter}

module _ {ℓ} {A : Type ℓ} where
  -- Splitting a list by a Boolean test and filtering both parts loses nothing and adds nothing.
  pub split-perm :
      (t m : A → Bool) (xs : List A)
      → Perm (filter m (filter t xs) ++ filter m (filter (λ x. not (t x)) xs)) (filter m xs)
  split-perm t m [] = Perm.refl []
  split-perm t m (x ∷ xs) = elim (Bool-cases (t x)) [
    | inl here ↦ elim (Bool-cases (m x)) [
      | inl fits ↦ rw (here, fits) (Perm.cons x (split-perm t m xs))
      | inr off ↦ rw (here, off) (split-perm t m xs)
    ]
    | inr away ↦ elim (Bool-cases (m x)) [
      | inl fits ↦
          rw (away, fits)
            (Perm.trans
              (perm_middle (filter m (filter t xs)) (filter m (filter (λ y. not (t y)) xs)))
              (Perm.cons x (split-perm t m xs)))
      | inr off ↦ rw (away, off) (split-perm t m xs)
    ]
  ]

  filter_every : (xs : List A) → filter (λ _. true) xs ≡ xs
  filter_every [] = refl
  filter_every (x ∷ xs) = ap (λ l. x ∷ l) (filter_every xs)

  -- The parts hold together each element as often as the list does.
  pub partition-perm :
      (t : A → Bool) (xs : List A) → Perm (filter t xs ++ filter (λ x. not (t x)) xs) xs
  partition-perm t xs =
      subst (λ l. Perm l xs)
        (rw (filter_every (filter t xs), filter_every (filter (λ x. not (t x)) xs)) refl)
        (subst
          (λ l.
            Perm
              (filter (λ _. true) (filter t xs) ++ filter (λ _. true) (filter (λ x. not (t x)) xs))
              l)
          (filter_every xs) (split-perm t (λ _. true) xs))
