-- ===== src/Prelude/Text/Laws.antt =====
-- Splitting, joining and cutting at a separator, and the order of texts.
use Prim.Native.Nat.{ℕ}
use mathlib.Core.Path.{◌≡◌, refl}
use mathlib.Core.Logic.{◌≢◌, inl, inr}
use mathlib.Core.List.{List, [], ◌∷◌, ◌++◌}
use mathlib.Core.Option.{none, some}
use native.Mathlib.Omega.{arith}
use yet_another_mysql_operat.Prelude.Tests.{◌==◌, Bool-cases}
use yet_another_mysql_operat.Prelude.Lists.{All}
use yet_another_mysql_operat.Prelude.Text.{Text, Lacks, join, split, last_part, before_last}

module _ (sep : ℕ) where
  pub split-Lacks : (s : Text) → Lacks sep s → split sep s ≡ s ∷ []
  unfolding split
  split-Lacks [] h = refl
  split-Lacks (c ∷ s) h = ground (arith, split-Lacks s h.1)

  -- A part that lacks the separator, and a separator behind it, is the first part.
  pub split-append : (p s : Text) → Lacks sep p → split sep (p ++ sep ∷ s) ≡ p ∷ split sep s
  unfolding split
  split-append [] s h = ground arith
  split-append (c ∷ p) s h = ground (arith, split-append p s h.1)

  -- Splitting a join gives the parts back.
  pub split-join : (ps : List Text) → ps ≢ [] → All (Lacks sep) ps → split sep (join sep ps) ≡ ps
  unfolding join
  split-join [] ne h = absurd (ne refl)
  split-join (p ∷ []) ne h = split-Lacks p h.0
  split-join (p ∷ q ∷ ps) ne h =
      cc (split-append p (join sep (q ∷ ps)) h.0, split-join (q ∷ ps) (cc) h.1)

  split-ne-nil : (s : Text) → split sep s ≢ []
  unfolding split
  split-ne-nil [] = cc
  split-ne-nil (c ∷ s) = ground (arith, split-ne-nil s)

  last_part-cons : (p : Text) (ps : List Text) → ps ≢ [] → last_part (p ∷ ps) ≡ last_part ps
  unfolding last_part
  last_part-cons p [] ne = absurd (ne refl)
  last_part-cons p (q ∷ ps) ne = refl

  -- Where the separator stands, the first part is followed by others.
  split_long :
      (p s : Text)
      → (a : Text) × (rest : List Text) × (split sep (p ++ sep ∷ s) ≡ a ∷ rest) × (rest ≢ [])
  unfolding split
  split_long [] s = ([], split sep s, ground arith, split-ne-nil s)
  split_long (c ∷ p) s =
      let (a, rest, e, ne) = split_long p s in
      elim (Bool-cases (c == sep)) [
        | inl at ↦ ([], split sep (p ++ sep ∷ s), rw at, split-ne-nil (p ++ sep ∷ s))
        | inr at ↦ ((c ∷ a), rest, ground arith, ne)
      ]

  -- What stands behind the last separator of `p ++ sep ∷ s` is found in `s`.
  pub last_part-split :
      (p s : Text) → last_part (split sep (p ++ sep ∷ s)) ≡ last_part (split sep s)
  unfolding split
  last_part-split [] s = ground (arith, last_part-cons [] (split sep s), split-ne-nil s)
  last_part-split (c ∷ p) s =
      let (a, rest, e, ne) = split_long p s in
      ground (
        arith,
        last_part-split p s,
        last_part-cons [] (split sep (p ++ sep ∷ s)),
        split-ne-nil (p ++ sep ∷ s),
        last_part-cons a rest,
        last_part-cons (c ∷ a) rest,
      )

  before_last-Lacks : (s : Text) → Lacks sep s → before_last sep s ≡ none
  unfolding before_last
  before_last-Lacks [] h = refl
  before_last-Lacks (c ∷ s) h = ground (arith, before_last-Lacks s h.1)

  pub before_last-append : (p s : Text) → Lacks sep s → before_last sep (p ++ sep ∷ s) ≡ some p
  unfolding before_last
  before_last-append [] s h = ground (arith, before_last-Lacks s h)
  before_last-append (c ∷ p) s h = ground (arith, before_last-append p s h)
