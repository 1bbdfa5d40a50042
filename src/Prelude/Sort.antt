-- ===== src/Prelude/Sort.antt =====
-- `sort.Strings`: the sorted list of the same texts. Every sort gives the same result here, since
-- the order is total on texts.
pub mod Laws
pub mod Keys
pub mod Split
use mathlib.Core.Path.{◌≡◌}
use mathlib.Core.Bool.{Bool, true}
use mathlib.Core.List.{List, [], ◌∷◌}
use yet_another_mysql_operat.Prelude.Tests.{if◌then◌else◌}
use yet_another_mysql_operat.Prelude.Text.{Text, text_lt}

unfoldable pub insert_text : Text → List Text → List Text
insert_text x [] = x ∷ []
insert_text x (y ∷ ys) = if text_lt y x then y ∷ insert_text x ys else x ∷ y ∷ ys

unfoldable pub sort_texts : List Text → List Text
unfolding insert_text
sort_texts [] = []
sort_texts (x ∷ xs) = insert_text x (sort_texts xs)

-- Every later text is above the bound.
abbrev pub Above : Text → List Text → Type 0
Above x [] = Unit
Above x (y ∷ ys) = (text_lt x y ≡ true) × Above x ys

abbrev pub IsSorted : List Text → Type 0
IsSorted [] = Unit
IsSorted (x ∷ xs) = Above x xs × IsSorted xs
