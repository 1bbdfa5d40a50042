-- ===== src/Prelude/Assoc/Laws.antt =====
-- Reading after writing, and the keys of a map.
use mathlib.Core.Path.{◌≡◌, refl}
use mathlib.Core.List.{[], ◌∷◌}
use mathlib.Core.Option.{some}
use native.Mathlib.Omega.{arith}
use yet_another_mysql_operat.Prelude.Tests.{if◌then◌else◌}
use yet_another_mysql_operat.Prelude.Text.{Text, text_eq, text_eq_iff}
use yet_another_mysql_operat.Prelude.Assoc.{Map, Distinct, elem, is_some, get, put, keys}

module _ {ℓ} {V : Type ℓ} where
  pub get-put :
      (k j : Text) (v : V) (m : Map V)
      → get j (put k v m) ≡ (if text_eq k j then some v else get j m)
  unfolding get put
  get-put k j v [] = refl
  get-put k j v ((i, w) ∷ m) =
      ground (arith, text_eq_iff k j, text_eq_iff i k, text_eq_iff i j, get-put k j v m)

  -- A key is listed exactly when it can be read.
  pub elem-keys : (k : Text) (m : Map V) → elem k (keys m) ≡ is_some (get k m)
  unfolding elem keys get
  elem-keys k [] = refl
  elem-keys k ((j, v) ∷ m) = ground (arith, elem-keys k m)

  pub put-Distinct : (k : Text) (v : V) (m : Map V) → Distinct m → Distinct (put k v m)
  unfolding put keys elem
  put-Distinct k v [] h = (refl, tt)
  put-Distinct k v ((j, w) ∷ m) h = ground (
    arith,
    put-Distinct k v m h.1,
    elem-keys j (put k v m),
    elem-keys j m,
    get-put k j v m,
    text_eq_iff k j,
    text_eq_iff j k,
  )
