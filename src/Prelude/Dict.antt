-- ===== src/Prelude/Dict.antt =====
-- Python's dictionaries with texts as their keys: the entries in the order of insertion.
use Prim.Native.String.{String}
use mathlib.Core.Path.{◌≡◌, refl}
use mathlib.Core.Bool.{false}
use mathlib.Core.Option.{Option, none, some}
use mathlib.Core.List.{List, [], ◌∷◌}
use native.Mathlib.Omega.{arith}
use text.Mathlib.Text.{◌==◌}
use text.Mathlib.TextEquality.{eq_iff}
use text.Mathlib.TextPositions.{eq_refl}
use xbotics_hey_robot.Prelude.Tests.{if◌then◌else◌}

module _ {ℓ} {A : Type ℓ} where
  -- `d.get(key)`, `d[key] = value`, `d.pop(key, None)` and `list(d.values())`
  unfoldable pub lookup : String → List (String × A) → Option A
  lookup key [] = none
  lookup key ((k, v) ∷ rest) = if k == key then some v else lookup key rest

  unfoldable pub insert : String → A → List (String × A) → List (String × A)
  insert key value [] = (key, value) ∷ []
  insert key value ((k, v) ∷ rest) =
      if k == key then (k, value) ∷ rest else (k, v) ∷ insert key value rest

  unfoldable pub pop : String → List (String × A) → List (String × A)
  pop key [] = []
  pop key ((k, v) ∷ rest) = if k == key then pop key rest else (k, v) ∷ pop key rest

  abbrev pub values : List (String × A) → List A
  values [] = []
  values ((k, v) ∷ rest) = v ∷ values rest

  pub lookup-insert :
      (key : String) (value : A) (d : List (String × A))
      → lookup key (insert key value d) ≡ some value
  unfolding lookup insert
  lookup-insert key value [] = ground (arith, eq_refl key)
  lookup-insert key value ((k, v) ∷ rest) = ground (arith, lookup-insert key value rest)

  pub lookup-insert_other :
      (key other : String) (value : A) (d : List (String × A))
      → (key == other) ≡ false
      → lookup other (insert key value d) ≡ lookup other d
  unfolding lookup insert
  lookup-insert_other key other value [] h = ground (arith, h)
  lookup-insert_other key other value ((k, v) ∷ rest) h =
      ground (arith, h, lookup-insert_other key other value rest h, eq_iff k key)

  pub lookup-pop : (key : String) (d : List (String × A)) → lookup key (pop key d) ≡ none
  unfolding lookup pop
  lookup-pop key [] = refl
  lookup-pop key ((k, v) ∷ rest) = ground (arith, lookup-pop key rest)
