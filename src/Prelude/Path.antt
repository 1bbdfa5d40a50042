-- ===== src/Prelude/Path.antt =====
-- `filepath.Join` and `filepath.Clean` of Go's standard library, on paths with slashes.
use mathlib.Core.Bool.{Bool, false}
use mathlib.Core.List.{List, [], ◌∷◌, ◌++◌}
use yet_another_mysql_operat.Prelude.Tests.{◌==◌, if◌then◌else◌}
use yet_another_mysql_operat.Prelude.Text.{Text, codes, text_eq, is_empty, join, split}

abbrev is_rooted : Text → Bool
is_rooted [] = false
is_rooted (c ∷ s) = c == b'/'

-- `..` in front of the elements kept so far, the last one first.
abbrev step_up : Bool → List Text → List Text
step_up rooted [] = if rooted then [] else codes ".." ∷ []
step_up rooted (e ∷ es) = if text_eq e (codes "..") then codes ".." ∷ e ∷ es else es

abbrev keep : Bool → Text → List Text → List Text
keep rooted e es =
    if is_empty e
    then es
    else if text_eq e (codes ".")
    then es
    else if text_eq e (codes "..")
    then step_up rooted es
    else e ∷ es

-- The elements that are left, in their order.
abbrev elements : Bool → List Text → List Text → List Text
elements rooted [] kept = kept
elements rooted (e ∷ es) kept = elements rooted es (keep rooted e kept)

abbrev reverse_onto : List Text → List Text → List Text
reverse_onto [] out = out
reverse_onto (e ∷ es) out = reverse_onto es (e ∷ out)

abbrev or_dot : Text → Text
or_dot [] = codes "."
or_dot (c ∷ s) = c ∷ s

unfoldable pub clean : Text → Text
unfolding codes text_eq split join
clean path =
    let rooted = is_rooted path in
    let body = join b'/' (reverse_onto (elements rooted (split b'/' path) []) []) in
    if rooted then b'/' ∷ body else or_dot body

-- `filepath.Join(dir, name)`: empty elements are left out, and nothing is left of two.
unfoldable pub join_path : Text → Text → Text
unfolding clean
join_path [] [] = []
join_path [] (c ∷ name) = clean (c ∷ name)
join_path (c ∷ dir) [] = clean (c ∷ dir)
join_path (c ∷ dir) (d ∷ name) = clean ((c ∷ dir) ++ b'/' ∷ d ∷ name)
