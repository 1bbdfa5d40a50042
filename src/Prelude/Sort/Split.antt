-- ===== src/Prelude/Sort/Split.antt =====
-- Where two texts stand in a sorted list.
use mathlib.Core.Path.{◌≡◌, sym, ap, ◌∙◌}
use mathlib.Core.Logic.{◌≢◌, inl, inr}
use mathlib.Core.Bool.{true, false}
use mathlib.Core.List.{List, [], ◌∷◌, ◌++◌}
use native.Mathlib.Omega.{arith}
use yet_another_mysql_operat.Prelude.Tests.{Bool-cases}
use yet_another_mysql_operat.Prelude.Text.{Text, text_eq, text_lt, text_eq_sound}
use yet_another_mysql_operat.Prelude.Assoc.{elem}
use yet_another_mysql_operat.Prelude.Sort.{Above, IsSorted}
use yet_another_mysql_operat.Prelude.Sort.Laws.{text_lt_irrefl, text_lt_trans}

elem_rest :
    (k x : Text) (xs : List Text) → elem k (x ∷ xs) ≡ true → text_eq x k ≡ false → elem k xs ≡ true
unfolding elem
elem_rest k x xs h n = ground (arith, h, n)

no_elem_nil : (k : Text) → elem k [] ≢ true
unfolding elem
no_elem_nil k h = ground (arith, h)

Above-elem : (x k : Text) (xs : List Text) → Above x xs → elem k xs ≡ true → text_lt x k ≡ true
Above-elem x k [] a h = absurd (no_elem_nil k h)
Above-elem x k (y ∷ ys) (lt, a) h = elim (Bool-cases (text_eq y k)) [
  | inl e ↦ rw (sym (text_eq_sound y k e)) lt
  | inr n ↦ Above-elem x k ys a (elem_rest k y ys h n)
]

split_at :
    (k : Text) (xs : List Text)
    → elem k xs ≡ true
    → (before after : List Text) × (xs ≡ before ++ k ∷ after)
split_at k [] h = absurd (no_elem_nil k h)
split_at k (x ∷ xs) h = elim (Bool-cases (text_eq x k)) [
  | inl e ↦ ([], xs, ap (λ y. y ∷ xs) (text_eq_sound x k e))
  | inr n ↦
      let (before, after, same) = split_at k xs (elem_rest k x xs h n) in
      (x ∷ before, after, ap (λ ys. x ∷ ys) same)
]

module _ (a b : Text) (lt : text_lt a b ≡ true) where
  differ : (x : Text) → text_eq x a ≡ true → text_eq x b ≡ false
  differ x e = elim (Bool-cases (text_eq x b)) [
    | inl f ↦
        let same : a ≡ b = sym (text_eq_sound x a e) ∙ text_eq_sound x b f in
        ground (arith, text_lt_irrefl b, ap (λ y. text_lt y b) same, lt)
    | inr n ↦ n
  ]

  not_in_front : (x : Text) (xs : List Text) → Above x xs → elem a xs ≡ true → text_eq x b ≡ false
  not_in_front x xs above h = elim (Bool-cases (text_eq x b)) [
    | inl e ↦
        let behind : text_lt b a ≡ true =
          ap (λ y. text_lt y a) (sym (text_eq_sound x b e)) ∙ Above-elem x a xs above h in
        ground (arith, text_lt_irrefl a, text_lt_trans a b a lt behind)
    | inr n ↦ n
  ]

  -- In a sorted list the smaller of two texts stands in front of the other.
  pub split_two :
      (xs : List Text)
      → IsSorted xs
      → elem a xs ≡ true
      → elem b xs ≡ true
      → (before between after : List Text) × (xs ≡ before ++ a ∷ (between ++ b ∷ after))
  split_two [] s h k = absurd (no_elem_nil a h)
  split_two (x ∷ xs) (above, s) h k = elim (Bool-cases (text_eq x a)) [
    | inl e ↦
        let (between, after, same) = split_at b xs (elem_rest b x xs k (differ x e)) in
        ([], between, after, ap (λ y. y ∷ xs) (text_eq_sound x a e) ∙ ap (λ ys. a ∷ ys) same)
    | inr n ↦
        let rest = elem_rest a x xs h n in
        let (before, between, after, same) =
          split_two xs s rest (elem_rest b x xs k (not_in_front x xs above rest)) in
        (x ∷ before, between, after, ap (λ ys. x ∷ ys) same)
  ]
