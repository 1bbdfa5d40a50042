-- ===== src/Prelude/Result.antt =====
-- Go's pair `(value, error)` as a result, its errors with `fmt.Errorf("…: %w", err)` as a
-- constructor, and actions that carry a state through the error paths too.
use mathlib.Core.Path.{◌≡◌, refl}
use mathlib.Core.Logic.{◌⊎◌, inl, inr}
use mathlib.Core.Bool.{Bool, true, false}
use Prim.Native.Nat.{ℕ}
use mathlib.Core.List.{◌++◌}
use yet_another_mysql_operat.Prelude.Text.{Text, codes}

-- What the program tells apart: the API server's reasons, `sql.ErrNoRows`, a `*mysql.MySQLError`
-- with its number, and any other error. `wrap s e` is `fmt.Errorf(s + ": %w", e)`.
pub data Error : Type 0 where
  not_found : Text → Error
  conflict : Text → Error
  no_rows : Error
  mysql_error : ℕ → Text → Error
  plain : Text → Error
  wrap : Text → Error → Error

pub data Result {ℓ} (A : Type ℓ) : Type ℓ where
  ok : A → Result A
  err : Error → Result A

-- `apierrors.IsNotFound` and `apierrors.IsConflict` look through wrapped errors.
unfoldable pub is_not_found : Error → Bool
is_not_found (not_found _) = true
is_not_found (wrap _ e) = is_not_found e
is_not_found _ = false

unfoldable pub is_conflict : Error → Bool
is_conflict (conflict _) = true
is_conflict (wrap _ e) = is_conflict e
is_conflict _ = false

-- `fmt.Errorf("place: %w", err)`
abbrev pub wrap_error : {A : Type 0} → Text → Result A → Result A
wrap_error place (ok a) = ok a
wrap_error place (err e) = err (wrap place e)

-- An action on a state. What was done before an error stays done.
abbrev pub Exec : Type 0 → Type 0 → Type 0
Exec S A = S → Result A × S

module _ {S A : Type 0} where
  abbrev pub pure : A → Exec S A
  pure a s = (ok a, s)

  abbrev pub raise : Error → Exec S A
  raise e s = (err e, s)

  abbrev pub lift : Result A → Exec S A
  lift r s = (r, s)

  abbrev pub annotate : Text → Exec S A → Exec S A
  annotate place m s = let (r, s') = m s in (wrap_error place r, s')

-- A call with its result handed over whole, the way Go code tests `err`.
abbrev pub attempt : {S A : Type 0} → Exec S A → Exec S (Result A)
attempt m s = let (r, s') = m s in (ok r, s')

module _ {S A B : Type 0} where
  abbrev pub continue : (A → Exec S B) → Result A → S → Result B × S
  continue f (ok a) s = f a s
  continue f (err e) s = (err e, s)

  infixl 5 ◌>>=◌ ◌>>◌
  abbrev pub ◌>>=◌ : Exec S A → (A → Exec S B) → Exec S B
  ◌>>=◌ m f s = let (r, s') = m s in continue f r s'

  abbrev pub ◌>>◌ : Exec S A → Exec S B → Exec S B
  m >> n = m >>= λ _. n

-- To split on a computed result and keep the equation.
pub Result-cases {ℓ} :
    {A : Type ℓ} (r : Result A) → ((a : A) × (r ≡ ok a)) ⊎ ((e : Error) × (r ≡ err e))
Result-cases (ok a) = inl (a, refl)
Result-cases (err e) = inr (e, refl)

-- What the first action establishes and every continuation keeps holds after both, whether or not
-- the first one fails.
module _ {S A B : Type 0} (P : S → Type 0) where
  continue_keeps :
      (f : A → Exec S B) (r : Result A) (t : S)
      → P t
      → ((a : A) → r ≡ ok a → P (f a t).1)
      → P (continue f r t).1
  continue_keeps f (ok a) t h k = k a refl
  continue_keeps f (err e) t h k = h

  pub bind_keeps :
      (m : Exec S A) (f : A → Exec S B) (s : S)
      → P (m s).1
      → ((a : A) → (m s).0 ≡ ok a → P (f a (m s).1).1)
      → P ((m >>= f) s).1
  bind_keeps m f s h k = continue_keeps f (m s).0 (m s).1 h k

-- `%v` of an error. The text of an error from outside is its whole message.
unfoldable pub message : Error → Text
unfolding codes
message (not_found t) = t
message (conflict t) = t
message no_rows = codes "sql: no rows in result set"
message (mysql_error n t) = t
message (plain t) = t
message (wrap place e) = place ++ (codes ": " ++ message e)
