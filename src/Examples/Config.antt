-- ===== src/Examples/Config.antt =====
-- Runs of the theorems on the webhook, the configuration, its hash and the objects that are written.
use yet_another_mysql_operat.Prelude.{◌≡◌, refl, [], ◌∷◌, none, some, false, arith, if◌then◌else◌}
use yet_another_mysql_operat.Prelude.Text.{Text, codes, text_eq, text_eq_iff}
use yet_another_mysql_operat.Prelude.Assoc.{Map, get, keys, elem, Distinct}
use yet_another_mysql_operat.Prelude.Sort.{IsSorted, sort_texts}
use yet_another_mysql_operat.Prelude.Sort.Keys.{SameMap}
use yet_another_mysql_operat.Prelude.Decimal.{pos, show_int}
use yet_another_mysql_operat.Api.{MySql, IntOrString, int, str, MysqlConf}
use yet_another_mysql_operat.Api.Webhook.{mysql, default}
use yet_another_mysql_operat.Api.Webhook.Laws.{default_idem}
use yet_another_mysql_operat.ConfigMap.{
  value_of, effective_config, render_mysql_config, default_my_cnf_boolean_flags,
}
use yet_another_mysql_operat.ConfigMap.Precedence.{or_else, mapped, get-effective_config}
use yet_another_mysql_operat.ConfigMap.Order.{rendered_keys_rise, render-SameMap}
use yet_another_mysql_operat.ConfigMap.RedoLog.{InTurn, of_dashed, redo_log_shadowed}
use yet_another_mysql_operat.Util.Hash.Laws.{IsClean, digest_input_injective, digest_input-SameMap}
use yet_another_mysql_operat.Examples.{object}

abbrev sent : MySql
sent = object false []

default_idem_example :
    default (codes "u-2") (default (codes "u-1") (mysql sent)) ≡ default (codes "u-1") (mysql sent)
default_idem_example =
    default_idem (codes "u-1") (codes "u-2") (mysql sent) (λ e. unfold codes in cc)

abbrev print : IntOrString → Text
print (int n) = show_int n
print (str s) = s

abbrev base : Map Text
base = (codes "gtid-mode", codes "on") ∷ []

abbrev overrides : MysqlConf
overrides = (codes "max-connections", int (pos 900)) ∷ (codes "gtid-mode", str (codes "off")) ∷ []

abbrev reordered : MysqlConf
reordered = (codes "gtid-mode", str (codes "off")) ∷ (codes "max-connections", int (pos 900)) ∷ []

overrides-Distinct : Distinct overrides
unfolding keys elem text_eq codes
overrides-Distinct = (refl, (refl, tt))

reordered-Distinct : Distinct reordered
unfolding keys elem text_eq codes
reordered-Distinct = (refl, (refl, tt))

base-Distinct : Distinct base
unfolding keys elem
base-Distinct = (refl, tt)

swapped-SameMap :
    {V : Type 0} (j k : Text) (v w : V)
    → text_eq j k ≡ false
    → SameMap ((j, v) ∷ (k, w) ∷ []) ((k, w) ∷ (j, v) ∷ [])
unfolding get
swapped-SameMap j k v w h i = ground (arith, text_eq_iff j i, text_eq_iff k i, text_eq_iff j k, h)

same_overrides : SameMap overrides reordered
same_overrides =
    swapped-SameMap (codes "max-connections") (codes "gtid-mode") (int (pos 900))
      (str (codes "off")) (unfold text_eq codes in refl)

get-effective_config_example :
    get (codes "gtid-mode") (effective_config print base overrides)
    ≡ or_else (mapped print (get (codes "gtid-mode") overrides)) (
        or_else
          (get (codes "gtid-mode") base)
          (if elem (codes "gtid-mode") default_my_cnf_boolean_flags then some [] else none))
get-effective_config_example =
    get-effective_config print (codes "gtid-mode") base overrides base-Distinct overrides-Distinct

rendered_keys_rise_example : IsSorted (sort_texts (keys (effective_config print base overrides)))
rendered_keys_rise_example = rendered_keys_rise print base overrides

render-SameMap_example :
    render_mysql_config print base overrides ≡ render_mysql_config print base reordered
render-SameMap_example =
    render-SameMap print base overrides reordered base-Distinct overrides-Distinct
      reordered-Distinct same_overrides

redo_log_shadowed_example :
    InTurn
      (effective_config print [] [])
      (value_of (of_dashed print []))
      (render_mysql_config print [] [])
redo_log_shadowed_example = redo_log_shadowed print [] tt (unfold get in refl)

abbrev one_way : Map Text
one_way = (codes "a", codes "1") ∷ (codes "b", codes "2") ∷ []

abbrev other_way : Map Text
other_way = (codes "b", codes "2") ∷ (codes "a", codes "1") ∷ []

one_way-Distinct : Distinct one_way
unfolding keys elem text_eq codes
one_way-Distinct = (refl, (refl, tt))

other_way-Distinct : Distinct other_way
unfolding keys elem text_eq codes
other_way-Distinct = (refl, (refl, tt))

same_data : SameMap one_way other_way
same_data =
    swapped-SameMap (codes "a") (codes "b") (codes "1") (codes "2") (unfold text_eq codes in refl)

one_way-IsClean : IsClean one_way
unfolding codes
one_way-IsClean = ground arith

other_way-IsClean : IsClean other_way
unfolding codes
other_way-IsClean = ground arith

digest_input_injective_example : SameMap one_way other_way
digest_input_injective_example =
    digest_input_injective one_way other_way one_way-IsClean other_way-IsClean
      (digest_input-SameMap one_way other_way one_way-Distinct other_way-Distinct same_data)
