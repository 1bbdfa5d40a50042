-- ===== src/Init/PodName.antt =====
-- `parseOrdinal` and `deriveService` on the names that a StatefulSet gives to its pods.
use yet_another_mysql_operat.Prelude.{ℕ, ◌<◌, ◌^◌, ◌≡◌, ◌≢◌, refl, ◌∷◌, ◌++◌, [], arith}
use yet_another_mysql_operat.Prelude.Result.{ok}
use yet_another_mysql_operat.Prelude.Text.{Text, last_part, split}
use yet_another_mysql_operat.Prelude.Text.Laws.{last_part-split, split-Lacks, before_last-append}
use yet_another_mysql_operat.Prelude.Decimal.{pos, show_nat}
use yet_another_mysql_operat.Prelude.Decimal.RoundTrip.{atoi-show_nat, show_nat-Lacks}
use yet_another_mysql_operat.Init.{parse_ordinal, derive_service}

-- `set-n`, the name of the pod number `n`.
abbrev pub pod_of : Text → ℕ → Text
pod_of set n = set ++ (b'-' ∷ show_nat n)

last_of : (set : Text) (n : ℕ) → last_part (split b'-' (pod_of set n)) ≡ show_nat n
last_of set n = rw (last_part-split b'-' set (show_nat n)) (
    rw (split-Lacks b'-' (show_nat n) (show_nat-Lacks b'-' n (omega arith)))
      (unfold last_part in refl))

module _ (quote : Text → Text) where
  -- From the name of pod number `n` of a set, whatever dashes the set's name has, the program reads
  -- back the number and the name. The set's name is not empty and the number fits Go's `int`.
  pub pod_name_round_trip :
      (set : Text) (n : ℕ)
      → set ≢ []
      → n < 2 ^ 63
      → (parse_ordinal quote (pod_of set n) ≡ ok (pos n))
        × (derive_service quote (pod_of set n) ≡ ok set)
  unfolding parse_ordinal derive_service
  pod_name_round_trip [] n named small = absurd (named refl)
  pod_name_round_trip (c ∷ s) n named small = (
    rw (last_of (c ∷ s) n, atoi-show_nat n small) refl,
    rw (before_last-append b'-' (c ∷ s) (show_nat n) (show_nat-Lacks b'-' n (omega arith))) refl,
  )
