-- ===== src/Prelude/Sort/Keys.antt =====
-- The sorted keys of a map do not depend on the order of its entries.
use mathlib.Core.Path.{◌≡◌, ap, sym, ◌∙◌}
use mathlib.Core.List.{[], ◌∷◌}
use yet_another_mysql_operat.Prelude.Text.{Text}
use yet_another_mysql_operat.Prelude.Assoc.{Map, Distinct, is_some, get, keys}
use yet_another_mysql_operat.Prelude.Assoc.Laws.{elem-keys}
use yet_another_mysql_operat.Prelude.Sort.{sort_texts}
use yet_another_mysql_operat.Prelude.Sort.Laws.{NoRepeat, sort_texts_unique}

module _ {ℓ} {V : Type ℓ} where
  -- The same entries, in whatever order.
  abbrev pub SameMap : Map V → Map V → Type ℓ
  SameMap m n = (k : Text) → get k m ≡ get k n

  pub keys-NoRepeat : (m : Map V) → Distinct m → NoRepeat (keys m)
  unfolding keys
  keys-NoRepeat [] d = tt
  keys-NoRepeat ((k, v) ∷ m) d = (d.0, keys-NoRepeat m d.1)

  pub sorted_keys_agree :
      (m n : Map V)
      → Distinct m
      → Distinct n
      → SameMap m n
      → sort_texts (keys m) ≡ sort_texts (keys n)
  sorted_keys_agree m n dm dn same =
      sort_texts_unique (keys m) (keys n) (keys-NoRepeat m dm) (keys-NoRepeat n dn)
        (λ k. elem-keys k m ∙ ap is_some (same k) ∙ sym (elem-keys k n))
