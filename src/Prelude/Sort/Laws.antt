-- ===== src/Prelude/Sort/Laws.antt =====
-- The order of texts is a strict total order, and a sorted list without repetition is determined by
-- its members.
use mathlib.Core.Path.{◌≡◌, refl, ap, ap₂, sym, ◌∙◌}
use mathlib.Core.Logic.{◌≢◌}
use mathlib.Core.Bool.{true, false, ◌||◌}
use mathlib.Core.List.{List, [], ◌∷◌}
use native.Mathlib.Omega.{arith}
use yet_another_mysql_operat.Prelude.Text.{Text, text_lt, text_eq, text_eq_iff}
use yet_another_mysql_operat.Prelude.Assoc.{elem}
use yet_another_mysql_operat.Prelude.Sort.{insert_text, sort_texts, Above, IsSorted}

pub text_lt_irrefl : (s : Text) → text_lt s s ≡ false
unfolding text_lt
text_lt_irrefl [] = refl
text_lt_irrefl (c ∷ s) = ground (arith, text_lt_irrefl s)

pub text_lt_trans : (s t u : Text) → text_lt s t ≡ true → text_lt t u ≡ true → text_lt s u ≡ true
unfolding text_lt
text_lt_trans s t [] h k = cc
text_lt_trans s [] (e ∷ u) h k = ground arith
text_lt_trans [] (d ∷ t) (e ∷ u) h k = refl
text_lt_trans (c ∷ s) (d ∷ t) (e ∷ u) h k = ground (arith, text_lt_trans s t u)

-- One of two different texts is below the other.
pub text_lt-total : (s t : Text) → text_lt s t ≡ false → s ≢ t → text_lt t s ≡ true
unfolding text_lt
text_lt-total [] [] h ne = absurd (ne refl)
text_lt-total [] (d ∷ t) h ne = cc
text_lt-total (c ∷ s) [] h ne = refl
text_lt-total (c ∷ s) (d ∷ t) h ne = ground (arith, text_lt-total s t)

-- No text stands twice.
abbrev pub NoRepeat : List Text → Type 0
NoRepeat [] = Unit
NoRepeat (x ∷ xs) = (elem x xs ≡ false) × NoRepeat xs

elem-insert_text :
    (k x : Text) (xs : List Text) → elem k (insert_text x xs) ≡ (text_eq x k || elem k xs)
unfolding elem insert_text
elem-insert_text k x [] = refl
elem-insert_text k x (y ∷ ys) = ground (arith, elem-insert_text k x ys)

-- Sorting keeps the members.
pub elem-sort_texts : (k : Text) (xs : List Text) → elem k (sort_texts xs) ≡ elem k xs
unfolding elem sort_texts
elem-sort_texts k [] = refl
elem-sort_texts k (x ∷ xs) =
    ground (arith, elem-insert_text k x (sort_texts xs), elem-sort_texts k xs)

Above-trans : (x y : Text) (ys : List Text) → text_lt x y ≡ true → Above y ys → Above x ys
Above-trans x y [] h a = tt
Above-trans x y (z ∷ zs) h a = (text_lt_trans x y z h a.0, Above-trans x y zs h a.1)

insert_text-Above :
    (b x : Text) (xs : List Text) → text_lt b x ≡ true → Above b xs → Above b (insert_text x xs)
unfolding insert_text
insert_text-Above b x [] h a = (h, tt)
insert_text-Above b x (y ∷ ys) h a = ground (arith, insert_text-Above b x ys h a.1)

insert_text-IsSorted :
    (x : Text) (xs : List Text) → elem x xs ≡ false → IsSorted xs → IsSorted (insert_text x xs)
unfolding insert_text elem
insert_text-IsSorted x [] ne h = (tt, tt)
insert_text-IsSorted x (y ∷ ys) ne h = ground (
  arith,
  insert_text-IsSorted x ys,
  insert_text-Above y x ys,
  text_lt-total y x,
  text_eq_iff y x,
  Above-trans x y ys,
)

-- Sorting texts without repetition gives a strictly rising list.
pub sort_texts-IsSorted : (xs : List Text) → NoRepeat xs → IsSorted (sort_texts xs)
unfolding sort_texts
sort_texts-IsSorted [] h = tt
sort_texts-IsSorted (x ∷ xs) h =
    insert_text-IsSorted x (sort_texts xs) (rw elem-sort_texts h.0) (sort_texts-IsSorted xs h.1)

Above-elem : (x y : Text) (ys : List Text) → Above x ys → elem y ys ≡ true → text_lt x y ≡ true
unfolding elem
Above-elem x y [] a m = cc
Above-elem x y (z ∷ zs) a m = ground (arith, text_eq_iff z y, Above-elem x y zs a.1)

Above-self : (x : Text) (xs : List Text) → Above x xs → elem x xs ≡ false
unfolding elem
Above-self x [] a = refl
Above-self x (z ∷ zs) a = ground (arith, text_eq_iff z x, text_lt_irrefl x, Above-self x zs a.1)

abbrev pub SameMembers : List Text → List Text → Type 0
SameMembers xs ys = (k : Text) → elem k xs ≡ elem k ys

heads_agree :
    (x y : Text) (xs ys : List Text)
    → Above x xs
    → Above y ys
    → SameMembers (x ∷ xs) (y ∷ ys)
    → x ≡ y
unfolding elem
heads_agree x y xs ys ax ay same = ground (
  arith,
  same x,
  same y,
  text_eq_iff x x,
  text_eq_iff y y,
  text_eq_iff x y,
  text_eq_iff y x,
  Above-elem y x ys ay,
  Above-elem x y xs ax,
  text_lt_trans x y x,
  text_lt_irrefl x,
)

tails_agree :
    (x : Text) (xs ys : List Text)
    → Above x xs
    → Above x ys
    → SameMembers (x ∷ xs) (x ∷ ys)
    → SameMembers xs ys
unfolding elem
tails_agree x xs ys ax ay same k =
    ground (arith, same k, text_eq_iff x k, Above-self x xs ax, Above-self x ys ay)

-- Two sorted lists with the same members are equal.
pub sorted_unique : (xs ys : List Text) → IsSorted xs → IsSorted ys → SameMembers xs ys → xs ≡ ys
unfolding elem
sorted_unique [] [] hx hy same = refl
sorted_unique [] (y ∷ ys) hx hy same = ground (arith, same y, text_eq_iff y y)
sorted_unique (x ∷ xs) [] hx hy same = ground (arith, same x, text_eq_iff x x)
sorted_unique (x ∷ xs) (y ∷ ys) (ax, hx) (ay, hy) same =
    let e = heads_agree x y xs ys ax ay same in
    ap₂ ◌∷◌ e (
      sorted_unique xs ys hx hy
        (tails_agree x xs ys ax (rw e ay) (λ k. same k ∙ ap (λ z. elem k (z ∷ ys)) (sym e))))

-- Sorting lists without repetition that have the same members gives the same list.
pub sort_texts_unique :
    (xs ys : List Text)
    → NoRepeat xs
    → NoRepeat ys
    → SameMembers xs ys
    → sort_texts xs ≡ sort_texts ys
sort_texts_unique xs ys dx dy same =
    sorted_unique (sort_texts xs) (sort_texts ys) (sort_texts-IsSorted xs dx)
      (sort_texts-IsSorted ys dy) (λ k. elem-sort_texts k xs ∙ same k ∙ sym (elem-sort_texts k ys))
