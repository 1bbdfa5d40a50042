-- ===== src/ConfigMap/Order.antt =====
-- The rendered file: one line for each key, in rising order, whatever order the maps are ranged in.
use yet_another_mysql_operat.Prelude.{◌≡◌, refl, List, [], ◌∷◌, arith, Option, none, some}
use yet_another_mysql_operat.Prelude.Text.{Text}
use yet_another_mysql_operat.Prelude.Assoc.{Map, Distinct, get, put, keys}
use yet_another_mysql_operat.Prelude.Assoc.Laws.{put-Distinct}
use yet_another_mysql_operat.Prelude.Sort.{IsSorted, sort_texts}
use yet_another_mysql_operat.Prelude.Sort.Laws.{sort_texts-IsSorted}
use yet_another_mysql_operat.Prelude.Sort.Keys.{SameMap, keys-NoRepeat, sorted_keys_agree}
use yet_another_mysql_operat.Api.{IntOrString, MysqlConf}
use yet_another_mysql_operat.ConfigMap.{
  default_my_cnf_boolean_flags, copy_all, put_missing, add_flags, or_default, put_overrides,
  render_lines, effective_config, render_mysql_config,
}
use yet_another_mysql_operat.ConfigMap.Precedence.{get-effective_config}

copy_all-Distinct :
    (source effective : Map Text) → Distinct effective → Distinct (copy_all source effective)
unfolding copy_all
copy_all-Distinct [] effective d = d
copy_all-Distinct ((k, v) ∷ source) effective d =
    copy_all-Distinct source (put k v effective) (put-Distinct k v effective d)

put_missing-Distinct :
    (flag : Text) (effective : Map Text) (o : Option Text)
    → Distinct effective
    → Distinct (put_missing flag effective o)
put_missing-Distinct flag effective none d = put-Distinct flag [] effective d
put_missing-Distinct flag effective (some v) d = d

add_flags-Distinct :
    (flags : List Text) (effective : Map Text)
    → Distinct effective
    → Distinct (add_flags flags effective)
unfolding add_flags
add_flags-Distinct [] effective d = d
add_flags-Distinct (flag ∷ flags) effective d =
    add_flags-Distinct flags (put_missing flag effective (get flag effective))
      (put_missing-Distinct flag effective (get flag effective) d)

module _ (string_of : IntOrString → Text) where
  put_overrides-Distinct :
      (overrides : MysqlConf) (effective : Map Text)
      → Distinct effective
      → Distinct (put_overrides string_of overrides effective)
  unfolding put_overrides
  put_overrides-Distinct [] effective d = d
  put_overrides-Distinct ((k, v) ∷ overrides) effective d =
      put_overrides-Distinct overrides (put k (string_of v) effective)
        (put-Distinct k (string_of v) effective d)

  effective-Distinct :
      (base : Map Text) (overrides : MysqlConf)
      → Distinct (effective_config string_of base overrides)
  unfolding effective_config
  effective-Distinct base overrides =
      put_overrides-Distinct overrides
        (add_flags default_my_cnf_boolean_flags (copy_all (or_default base) []))
        (add_flags-Distinct default_my_cnf_boolean_flags (copy_all (or_default base) [])
          (copy_all-Distinct (or_default base) [] tt))

  -- The keys are written in strictly rising order, so none is written twice.
  pub rendered_keys_rise :
      (base : Map Text) (overrides : MysqlConf)
      → IsSorted (sort_texts (keys (effective_config string_of base overrides)))
  rendered_keys_rise base overrides =
      let effective = effective_config string_of base overrides in
      sort_texts-IsSorted (keys effective)
        (keys-NoRepeat effective (effective-Distinct base overrides))

  render_lines-SameMap :
      (m n : Map Text) (ks : List Text) → SameMap m n → render_lines m ks ≡ render_lines n ks
  unfolding render_lines
  render_lines-SameMap m n [] same = refl
  render_lines-SameMap m n (k ∷ ks) same = cc (same k, render_lines-SameMap m n ks same)

  effective-SameMap :
      (base : Map Text) (overrides overrides' : MysqlConf)
      → Distinct (or_default base)
      → Distinct overrides
      → Distinct overrides'
      → SameMap overrides overrides'
      → SameMap
          (effective_config string_of base overrides)
          (effective_config string_of base overrides')
  effective-SameMap base overrides overrides' db d d' same k = ground (
    arith,
    get-effective_config string_of k base overrides db d,
    get-effective_config string_of k base overrides' db d',
    same k,
  )

  -- The same overrides over the same base give the same file, whatever order a range visits the
  -- overrides in.
  pub render-SameMap :
      (base : Map Text) (overrides overrides' : MysqlConf)
      → Distinct (or_default base)
      → Distinct overrides
      → Distinct overrides'
      → SameMap overrides overrides'
      → render_mysql_config string_of base overrides ≡ render_mysql_config string_of base overrides'
  unfolding render_mysql_config
  render-SameMap base overrides overrides' db d d' same =
      let m = effective_config string_of base overrides in
      let n = effective_config string_of base overrides' in
      let e = effective-SameMap base overrides overrides' db d d' same in
      cc (
        sorted_keys_agree m n (effective-Distinct base overrides)
            (effective-Distinct base overrides') e,
        render_lines-SameMap m n (sort_texts (keys m)) e,
      )
