-- ===== src/Common/Dict.antt =====
-- A `Map`, and an object used as a record, with text keys: an association list in insertion
-- order. Writing to a key that is there keeps its place.
use Prim.Native.String.{String}
use mathlib.Core.Path.{◌≡◌, refl}
use mathlib.Core.Bool.{◌||◌}
use mathlib.Core.Option.{Option, none, some}
use mathlib.Core.List.{List, [], ◌∷◌, map}
use native.Mathlib.Omega.{arith}
use text.Mathlib.Text.{◌==◌}
use text.Mathlib.TextEquality.{eq_iff}
use wave_cast.Common.Tests.{if◌then◌else◌, is_some}
use wave_cast.Common.Lists.{has, Distinct}

module _ {ℓ} {V : Type ℓ} where
  unfoldable pub lookup : String → List (String × V) → Option V
  lookup key [] = none
  lookup key ((name, value) ∷ rest) = if name == key then some value else lookup key rest

  unfoldable pub insert : String → V → List (String × V) → List (String × V)
  insert key new [] = (key, new) ∷ []
  insert key new ((name, value) ∷ rest) =
      if name == key then (name, new) ∷ rest else (name, value) ∷ insert key new rest

  abbrev pub keys : List (String × V) → List String
  keys = map (λ e. e.0)

  abbrev pub values : List (String × V) → List V
  values = map (λ e. e.1)

  -- A read after a write: the value written under its own key, the old one under any other.
  pub lookup-insert :
      (key asked : String) (new : V) (dict : List (String × V))
      → lookup asked (insert key new dict) ≡ (if key == asked then some new else lookup asked dict)
  unfolding insert lookup
  lookup-insert key asked new [] = refl
  lookup-insert key asked new ((name, value) ∷ rest) = ground (
    lookup-insert key asked new rest,
    eq_iff name asked,
    eq_iff name key,
    eq_iff key asked,
    arith,
  )

  pub has-keys-insert :
      (k j : String) (v : V) (m : List (String × V))
      → has j (keys (insert k v m)) ≡ (has j (keys m) || k == j)
  unfolding insert
  has-keys-insert k j v [] = ground arith
  has-keys-insert k j v ((i, w) ∷ m) =
      ground (arith, eq_iff k j, eq_iff i k, eq_iff i j, has-keys-insert k j v m)

  pub Distinct-keys-insert :
      (k : String) (v : V) (m : List (String × V))
      → Distinct (keys m)
      → Distinct (keys (insert k v m))
  unfolding insert
  Distinct-keys-insert k v [] d = (refl, tt)
  Distinct-keys-insert k v ((i, w) ∷ m) (n, d) =
      ground (arith, Distinct-keys-insert k v m d, has-keys-insert k i v m, eq_iff i k, eq_iff k i)

  pub has-keys : (k : String) (m : List (String × V)) → has k (keys m) ≡ is_some (lookup k m)
  unfolding lookup
  has-keys k [] = refl
  has-keys k ((j, v) ∷ m) = ground (arith, has-keys k m)
