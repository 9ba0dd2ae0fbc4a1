-- ===== src/Common/Assoc.antt =====
-- A Go map with string keys, as an association list. An absent key has no entry; the order of the
-- entries stands for nothing, as no code of the program depends on Go's iteration order.
use Prim.Native.String.{String}
use mathlib.Core.Path.{◌≡◌}
use mathlib.Core.Option.{Option, none, some}
use mathlib.Core.List.{List, [], ◌∷◌}
use native.Mathlib.Omega.{arith}
use text.Mathlib.Text.{◌==◌}
use text.Mathlib.TextEquality.{eq_iff}
use text.Mathlib.TextPositions.{eq_refl}
use flowanything.Common.Tests.{if◌then◌else◌}

module _ {ℓ} {V : Type ℓ} where
  -- The value of the first entry with the key: v, ok := m[key].
  unfoldable pub lookup : String → List (String × V) → Option V
  lookup key [] = none
  lookup key ((name, value) ∷ entries) =
      let later = lookup key entries in if name == key then some value else later

  -- delete(m, key)
  unfoldable pub remove : String → List (String × V) → List (String × V)
  remove key [] = []
  remove key ((name, value) ∷ entries) =
      let kept = remove key entries in if name == key then kept else (name, value) ∷ kept

  -- m[key] = value
  unfoldable pub insert : String → V → List (String × V) → List (String × V)
  unfolding remove
  insert key value entries = (key, value) ∷ remove key entries

  pub lookup-remove :
      (key other : String) (entries : List (String × V))
      → lookup other (remove key entries) ≡ (if key == other then none else lookup other entries)
  unfolding lookup remove
  lookup-remove key other [] = ground arith
  lookup-remove key other ((name, value) ∷ entries) =
      ground (
        arith,
        lookup-remove key other entries,
        eq_iff name key,
        eq_iff name other,
        eq_iff key other,
      )

  pub lookup-insert :
      (key other : String) (value : V) (entries : List (String × V))
      → lookup other (insert key value entries)
        ≡ (if key == other then some value else lookup other entries)
  unfolding lookup insert
  lookup-insert key other value entries = ground (arith, lookup-remove key other entries)

  pub lookup-insert_self :
      (key : String) (value : V) (entries : List (String × V))
      → lookup key (insert key value entries) ≡ some value
  lookup-insert_self key value entries = simp (lookup-insert, eq_refl)
