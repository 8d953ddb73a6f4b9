-- ===== src/Base/Dict.antt =====
-- Go's map[string]V as a list of entries, one to a key. Go leaves the order of a `range` over a map
-- open: what depends on it takes the order as an argument.
use go_metrics_harvester.Base.Bools.{if◌then◌else◌, eq-eq_false}
use Prim.Native.String.{String}
use mathlib.Core.Path.{◌≡◌, refl}
use mathlib.Core.Logic.{◌≢◌}
use mathlib.Core.Option.{Option, none, some}
use mathlib.Core.List.{List, [], ◌∷◌}
use native.Mathlib.Omega.{arith}
use text.Mathlib.Text.{◌==◌}
use text.Mathlib.TextEquality.{eq_iff}
use text.Mathlib.TextPositions.{eq_refl}

abbrev pub Dict {ℓ} : Type ℓ → Type ℓ
Dict V = List (String × V)

module _ {ℓ} {V : Type ℓ} where
  unfoldable pub lookup : String → Dict V → Option V
  lookup key [] = none
  lookup key ((k, v) ∷ entries) = if k == key then some v else lookup key entries

  -- m[key] = v
  unfoldable pub assign : String → V → Dict V → Dict V
  assign key v [] = (key, v) ∷ []
  assign key v ((k, w) ∷ entries) =
      if k == key then (k, v) ∷ entries else (k, w) ∷ assign key v entries

  -- the values, as a `range` over the map meets them in the order of the list
  unfoldable pub values : Dict V → List V
  values [] = []
  values ((_, v) ∷ entries) = v ∷ values entries

  pub lookup-assign :
      (key j : String) (v : V) (d : Dict V)
      → lookup j (assign key v d) ≡ (if key == j then some v else lookup j d)
  unfolding lookup assign
  lookup-assign key j v [] = refl
  lookup-assign key j v ((k, w) ∷ entries) =
      ground (arith, eq_iff k key, eq_iff k j, eq_iff key j, lookup-assign key j v entries)

  pub lookup-assign_self :
      (key : String) (v : V) (d : Dict V) → lookup key (assign key v d) ≡ some v
  lookup-assign_self key v d = simp (lookup-assign, eq_refl)

  pub lookup-assign_ne :
      (key j : String) (v : V) (d : Dict V) → key ≢ j → lookup j (assign key v d) ≡ lookup j d
  lookup-assign_ne key j v d h = rw (lookup-assign, eq-eq_false key j h)
