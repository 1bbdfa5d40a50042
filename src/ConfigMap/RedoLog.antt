-- ===== src/ConfigMap/RedoLog.antt =====
-- Two spellings of one option in the table of defaults, and in the rendered file.
use yet_another_mysql_operat.Prelude.{
  ◌≡◌, refl, sym, ap, ◌∙◌, true, List, [], ◌∷◌, ◌++◌, append_assoc, Option, none, some, arith,
}
use yet_another_mysql_operat.Prelude.Text.{Text, codes, text_lt, text_eq}
use yet_another_mysql_operat.Prelude.Assoc
use yet_another_mysql_operat.Prelude.Assoc.{Map, Distinct, get, keys, elem, is_some}
use yet_another_mysql_operat.Prelude.Assoc.Laws.{elem-keys}
use yet_another_mysql_operat.Prelude.Sort.{sort_texts}
use yet_another_mysql_operat.Prelude.Sort.Laws.{elem-sort_texts}
use yet_another_mysql_operat.Prelude.Sort.Split.{split_two}
use yet_another_mysql_operat.Api.{IntOrString, MysqlConf}
use yet_another_mysql_operat.ConfigMap.{
  default_my_cnf, effective_config, render_line, render_lines, render_mysql_config, value_of,
}
use yet_another_mysql_operat.ConfigMap.Order.{rendered_keys_rise}
use yet_another_mysql_operat.ConfigMap.Precedence.{or_else, mapped, get-effective_config}

unfoldable pub dashed : Text
unfolding codes
dashed = codes "innodb-redo-log-capacity"

unfoldable pub mixed : Text
unfolding codes
mixed = codes "innodb-redo_log_capacity"

default_my_cnf-Distinct : Distinct default_my_cnf
unfolding default_my_cnf Assoc.elem Assoc.keys text_eq
default_my_cnf-Distinct = ground arith

defaults_have_both :
    (get dashed default_my_cnf ≡ some (codes "1G")) × (get mixed default_my_cnf ≡ some (codes "2"))
unfolding default_my_cnf get text_eq dashed mixed
defaults_have_both = (refl, refl)

dashed_first : text_lt dashed mixed ≡ true
unfolding text_lt dashed mixed
dashed_first = refl

module _ (effective : Map Text) where
  lines_join :
      (ks js : List Text)
      → render_lines effective (ks ++ js) ≡ render_lines effective ks ++ render_lines effective js
  unfolding render_lines
  lines_join [] js = refl
  lines_join (k ∷ ks) js =
      let line = render_line k (value_of (get k effective)) in
      ap (λ t. line ++ t) (lines_join ks js)
      ∙ sym (append_assoc line (render_lines effective ks) (render_lines effective js))

  line_behind :
      (before : List Text) (k : Text) (after : List Text)
      → render_lines effective (before ++ k ∷ after)
        ≡ render_lines effective before
          ++ (render_line k (value_of (get k effective)) ++ render_lines effective after)
  unfolding render_lines
  line_behind before k after = lines_join before (k ∷ after)

abbrev dashed_line : Text → Text
dashed_line value = render_line (codes "innodb-redo-log-capacity") value

abbrev two_line : Text
two_line = codes "innodb-redo_log_capacity = 2\n"

-- The file in parts: some lines, the one of `innodb-redo-log-capacity` with its value, some lines, the
-- one of `innodb-redo_log_capacity` with the value 2, some lines.
abbrev pub InTurn : Map Text → Text → Text → Type 0
InTurn effective value file =
    (before between after : List Text) × (file
      ≡ codes "[mysqld]\n"
        ++ (render_lines effective before
            ++ (dashed_line value
                ++ (render_lines effective between
                    ++ (codes "innodb-redo_log_capacity = 2\n"
                        ++ (render_lines effective after
                            ++ codes "!includedir /etc/mysql/conf.d\n"))))))

mixed_line : render_line mixed (codes "2") ≡ two_line
unfolding render_line mixed codes
mixed_line = refl

dashed_text : (value : Text) → render_line dashed value ≡ dashed_line value
unfolding dashed
dashed_text value = refl

module _ (effective : Map Text) (value : Option Text) where
  lines_parts :
      (before between after : List Text)
      → get dashed effective ≡ value
      → get mixed effective ≡ some (codes "2")
      → render_lines effective (before ++ dashed ∷ (between ++ mixed ∷ after))
        ≡ render_lines effective before
          ++ (dashed_line (value_of value)
              ++ (render_lines effective between ++ (two_line ++ render_lines effective after)))
  lines_parts before between after first second =
      rw
        (
          line_behind effective before dashed (between ++ mixed ∷ after),
          line_behind effective between mixed after,
          first,
          second,
          mixed_line,
          dashed_text (value_of value),
        )
        refl

tail_last :
    (a b c d e t : Text) → (a ++ (b ++ (c ++ (d ++ e)))) ++ t ≡ a ++ (b ++ (c ++ (d ++ (e ++ t))))
tail_last a b c d e t =
    rw
      (
        append_assoc a (b ++ (c ++ (d ++ e))) t,
        append_assoc b (c ++ (d ++ e)) t,
        append_assoc c (d ++ e) t,
        append_assoc d e t,
      )
      refl

module _ (string_of : IntOrString → Text) (overrides : MysqlConf) where
  abbrev pub of_dashed : Option Text
  of_dashed = or_else (mapped string_of (get dashed overrides)) (some (codes "1G"))

  values :
      Distinct overrides
      → get mixed overrides ≡ none
      → let effective = effective_config string_of [] overrides in
        (get dashed effective ≡ of_dashed) × (get mixed effective ≡ some (codes "2"))
  values d h =
      let (first, second) = defaults_have_both in
      ground (
        arith,
        first,
        second,
        get-effective_config string_of dashed [] overrides default_my_cnf-Distinct d,
        get-effective_config string_of mixed [] overrides default_my_cnf-Distinct d,
      )

  there : is_some of_dashed ≡ true
  there = ground arith

  is_written :
      (k : Text)
      → is_some (get k (effective_config string_of [] overrides)) ≡ true
      → elem k (sort_texts (keys (effective_config string_of [] overrides))) ≡ true
  is_written k h =
      let effective = effective_config string_of [] overrides in
      elem-sort_texts k (keys effective) ∙ (elem-keys k effective ∙ h)

  -- Over the default base, unless `innodb-redo_log_capacity` is overridden: the rendered file has a
  -- line of `innodb-redo-log-capacity` with its override or else 1G, and in a later line
  -- `innodb-redo_log_capacity` with the value 2.
  pub redo_log_shadowed :
      Distinct overrides
      → get mixed overrides ≡ none
      → InTurn
          (effective_config string_of [] overrides)
          (value_of of_dashed)
          (render_mysql_config string_of [] overrides)
  unfolding render_mysql_config
  redo_log_shadowed d h =
      let effective = effective_config string_of [] overrides in
      let (first, second) = values d h in
      let written = sort_texts (keys effective) in
      let (before, between, after, same) =
        split_two dashed mixed dashed_first written (rendered_keys_rise string_of [] overrides)
          (is_written dashed (ap is_some first ∙ there)) (is_written mixed (ap is_some second)) in
      let parts =
        ap (render_lines effective) same
        ∙ lines_parts effective of_dashed before between after first second in
      let end = codes "!includedir /etc/mysql/conf.d\n" in
      (
        before,
        between,
        after,
        ap (λ t. codes "[mysqld]\n" ++ (t ++ end)) parts
            ∙ ap (λ t. codes "[mysqld]\n" ++ t)
                (tail_last (render_lines effective before) (dashed_line (value_of of_dashed))
                  (render_lines effective between) two_line (render_lines effective after) end),
      )
