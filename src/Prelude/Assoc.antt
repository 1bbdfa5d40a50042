-- ===== src/Prelude/Assoc.antt =====
-- Go's `map[string]V` as a list of its entries. The program reads a key, writes a key, tests for a
-- key and ranges over the keys; Go leaves the order of a range open, and here it is the list's.
pub mod Laws
use mathlib.Core.Path.{◌≡◌}
use mathlib.Core.Bool.{Bool, true, false, ◌||◌}
use mathlib.Core.List.{List, [], ◌∷◌, map}
use mathlib.Core.Option.{Option, none, some}
use yet_another_mysql_operat.Prelude.Tests.{if◌then◌else◌}
use yet_another_mysql_operat.Prelude.Text.{Text, text_eq}

abbrev pub Map {ℓ} : Type ℓ → Type ℓ
Map V = List (Text × V)

-- Is the text in the list?
unfoldable pub elem : Text → List Text → Bool
elem k [] = false
elem k (x ∷ xs) = text_eq x k || elem k xs

abbrev pub is_some {ℓ} : {V : Type ℓ} → Option V → Bool
is_some none = false
is_some (some v) = true

module _ {ℓ} {V : Type ℓ} where
  -- `m[k]`, with the test for the key
  unfoldable pub get : Text → Map V → Option V
  get k [] = none
  get k ((j, v) ∷ m) = if text_eq j k then some v else get k m

  -- `m[k] = v`
  unfoldable pub put : Text → V → Map V → Map V
  put k v [] = (k, v) ∷ []
  put k v ((j, w) ∷ m) = if text_eq j k then (j, v) ∷ m else (j, w) ∷ put k v m

  -- `for k := range m`
  unfoldable pub keys : Map V → List Text
  keys [] = []
  keys ((j, v) ∷ m) = j ∷ keys m

  -- No key stands twice, as in every Go map.
  abbrev pub Distinct : Map V → Type 0
  Distinct [] = Unit
  Distinct ((j, v) ∷ m) = (elem j (keys m) ≡ false) × Distinct m
