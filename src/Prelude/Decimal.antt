-- ===== src/Prelude/Decimal.antt =====
-- `fmt.Sprintf("%d", n)` and `strconv.Atoi`, on Go's 64-bit `int`.
pub mod RoundTrip
use Prim.Native.Nat.{ℕ, zero, suc, ◌+◌, ◌-◌, ◌*◌, ◌/◌, ◌%◌, ◌^◌}
use mathlib.Core.Path.{◌≡◌, refl}
use mathlib.Core.Bool.{Bool, true, false, ◌&&◌, ◌||◌}
use mathlib.Core.List.{[], ◌∷◌, ◌++◌}
use mathlib.Core.Option.{Option, none, some}
use yet_another_mysql_operat.Prelude.Tests.{◌==◌, if◌then◌else◌, ltb, leb}
use yet_another_mysql_operat.Prelude.Text.{Text, codes}

-- `negsuc n` is -(n + 1).
pub data ℤ : Type 0 where
  pos : ℕ → ℤ
  negsuc : ℕ → ℤ

-- `a == b` and `a < b` on integers.
abbrev pub int_eq : ℤ → ℤ → Bool
int_eq (pos m) (pos n) = m == n
int_eq (negsuc m) (negsuc n) = m == n
int_eq (pos m) (negsuc n) = false
int_eq (negsuc m) (pos n) = false

abbrev pub int_lt : ℤ → ℤ → Bool
int_lt (pos m) (pos n) = ltb m n
int_lt (negsuc m) (negsuc n) = ltb n m
int_lt (pos m) (negsuc n) = false
int_lt (negsuc m) (pos n) = true

-- The digits of `n` in front of `out`; `n` rounds are more than enough.
unfoldable pub digits : ℕ → ℕ → Text → Text
digits zero n out = out
digits (suc fuel) n out =
    let rest = digits fuel (n / 10) ((b'0' + n % 10) ∷ out) in
    if ltb n 10 then (b'0' + n) ∷ out else rest

unfoldable pub show_nat : ℕ → Text
unfolding digits
show_nat n = digits (suc n) n []

-- `%d`
unfoldable pub show_int : ℤ → Text
unfolding show_nat
show_int (pos n) = show_nat n
show_int (negsuc n) = b'-' ∷ show_nat (suc n)

-- What `strconv.NumError` tells apart.
pub data NumError : Type 0 where
  syntax range : NumError

abbrev pub max_uint64 : ℕ
max_uint64 = 2 ^ 64 - 1

-- The loop of `strconv.ParseUint` in base ten: a value, and an error where there is one.
unfoldable pub scan : Text → ℕ → ℕ × Option NumError
scan [] n = (n, none)
scan (c ∷ s) n =
    let d = c - b'0' in
    let rest = scan s (n * 10 + d) in
    if ltb c b'0' || ltb b'9' c
    then (0, some syntax)
    else if ltb max_uint64 (n * 10 + d)
    then (max_uint64, some range)
    else rest

unfoldable pub parse_uint : Text → ℕ × Option NumError
unfolding scan
parse_uint [] = (0, some syntax)
parse_uint (c ∷ s) = scan (c ∷ s) 0

-- The end of `strconv.ParseInt`: the sign is put on and the 63-bit range is tested.
unfoldable pub signed : Bool → ℕ × Option NumError → ℤ × Option NumError
signed neg (n, some syntax) = (pos 0, some syntax)
signed false (n, e) = if leb (2 ^ 63) n then (pos (2 ^ 63 - 1), some range) else (pos n, e)
signed true (n, e) =
    if ltb (2 ^ 63) n
    then (negsuc (2 ^ 63 - 1), some range)
    else if n == 0
    then (pos 0, e)
    else (negsuc (n - 1), e)

-- `strconv.Atoi`: the value that it returns, also beside an error.
unfoldable pub atoi : Text → ℤ × Option NumError
unfolding parse_uint signed
atoi [] = (pos 0, some syntax)
atoi (c ∷ s) =
    if c == b'+'
    then signed false (parse_uint s)
    else if c == b'-'
    then signed true (parse_uint s)
    else signed false (parse_uint (c ∷ s))

atoi_runs :
    (atoi (codes "-12") ≡ (negsuc 11, none))
    × (atoi (codes "007") ≡ (pos 7, none))
    × (atoi (codes "x") ≡ (pos 0, some syntax))
    × (atoi (codes "9223372036854775808") ≡ (pos 9223372036854775807, some range))
    × (atoi (codes "99999999999999999999x") ≡ (pos 9223372036854775807, some range))
unfolding atoi codes
atoi_runs = (refl, refl, refl, refl, refl)

show_runs : (show_int (pos 3306) ≡ codes "3306") × (show_int (negsuc 0) ≡ codes "-1")
unfolding show_int codes
show_runs = (refl, refl)
