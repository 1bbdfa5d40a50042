-- ===== src/ConfigMap/Precedence.antt =====
-- Which value a key of the rendered configuration has: an override first, then the source, then a
-- flag.
use yet_another_mysql_operat.Prelude.{
  ◌≡◌, refl, List, [], ◌∷◌, Option, none, some, arith, if◌then◌else◌,
}
use yet_another_mysql_operat.Prelude.Text.{Text, text_eq_iff}
use yet_another_mysql_operat.Prelude.Assoc.{Map, Distinct, get, put, elem}
use yet_another_mysql_operat.Prelude.Assoc.Laws.{get-put, elem-keys}
use yet_another_mysql_operat.Api.{IntOrString, MysqlConf}
use yet_another_mysql_operat.ConfigMap.{
  default_my_cnf_boolean_flags, copy_all, put_missing, add_flags, or_default, put_overrides,
  effective_config,
}

-- The first of two values that is there.
abbrev pub or_else : Option Text → Option Text → Option Text
or_else (some v) w = some v
or_else none w = w

abbrev pub mapped : (IntOrString → Text) → Option IntOrString → Option Text
mapped f none = none
mapped f (some v) = some (f v)

get-copy_all :
    (k : Text) (source effective : Map Text)
    → Distinct source
    → get k (copy_all source effective) ≡ or_else (get k source) (get k effective)
unfolding copy_all get
get-copy_all k [] effective d = refl
get-copy_all k ((j, v) ∷ source) effective d = ground (
  arith,
  get-copy_all k source (put j v effective) d.1,
  get-put j k v effective,
  elem-keys j source,
  text_eq_iff j k,
)

get-add_flags :
    (k : Text) (flags : List Text) (effective : Map Text)
    → get k (add_flags flags effective)
      ≡ or_else (get k effective) (if elem k flags then some [] else none)
unfolding add_flags elem
get-add_flags k [] effective = ground arith
get-add_flags k (flag ∷ flags) effective = ground (
  arith,
  get-add_flags k flags (put_missing flag effective (get flag effective)),
  get-put flag k [] effective,
  text_eq_iff flag k,
)

module _ (string_of : IntOrString → Text) where
  get-put_overrides :
      (k : Text) (overrides : MysqlConf) (effective : Map Text)
      → Distinct overrides
      → get k (put_overrides string_of overrides effective)
        ≡ or_else (mapped string_of (get k overrides)) (get k effective)
  unfolding put_overrides get
  get-put_overrides k [] effective d = refl
  get-put_overrides k ((j, v) ∷ overrides) effective d = ground (
    arith,
    get-put_overrides k overrides (put j (string_of v) effective) d.1,
    get-put j k (string_of v) effective,
    elem-keys j overrides,
    text_eq_iff j k,
  )

  -- With no key twice in the base and in the overrides: an override decides; without one the base
  -- decides, or the defaults where the base is empty; without that a boolean flag stands with no
  -- value; any other key is absent.
  pub get-effective_config :
      (k : Text) (base : Map Text) (overrides : MysqlConf)
      → Distinct (or_default base)
      → Distinct overrides
      → get k (effective_config string_of base overrides)
        ≡ or_else (mapped string_of (get k overrides)) (
            or_else
              (get k (or_default base))
              (if elem k default_my_cnf_boolean_flags then some [] else none))
  unfolding effective_config get
  get-effective_config k base overrides db dv =
      let copied = copy_all (or_default base) [] in
      let flagged = add_flags default_my_cnf_boolean_flags copied in
      ground (
        arith,
        get-put_overrides k overrides flagged dv,
        get-add_flags k default_my_cnf_boolean_flags copied,
        get-copy_all k (or_default base) [] db,
      )
