-- ===== src/Prelude/Decimal/RoundTrip.antt =====
-- `atoi` reads back what `show_nat` prints.
use Prim.Native.Nat.{ℕ, zero, suc, ◌+◌, ◌/◌, ◌%◌, ◌^◌, ◌<◌, ◌≤◌}
use mathlib.Core.Path.{◌≡◌, refl}
use mathlib.Core.Logic.{◌≢◌}
use mathlib.Core.List.{[], ◌∷◌, cons-ne-nil}
use mathlib.Core.Option.{none}
use native.Mathlib.Omega.{arith}
use yet_another_mysql_operat.Prelude.Lists.{All}
use yet_another_mysql_operat.Prelude.Text.{Text, Lacks}
use yet_another_mysql_operat.Prelude.Decimal.{
  pos, digits, show_nat, scan, parse_uint, atoi, max_uint64,
}

abbrev pub IsDigit : ℕ → Type 0
IsDigit c = (b'0' ≤ c) × (c ≤ b'9')

scan-digits :
    (fuel n : ℕ) (out : Text) → n < fuel → n ≤ max_uint64 → scan (digits fuel n out) 0 ≡ scan out n
unfolding digits scan
scan-digits zero n out h fits = elim h [ ]
scan-digits (suc fuel) n out h fits =
    ground (arith, scan-digits fuel (n / 10) ((b'0' + n % 10) ∷ out))

digits-IsDigit : (fuel n : ℕ) (out : Text) → All IsDigit out → All IsDigit (digits fuel n out)
unfolding digits
digits-IsDigit zero n out h = h
digits-IsDigit (suc fuel) n out h =
    ground (arith, digits-IsDigit fuel (n / 10) ((b'0' + n % 10) ∷ out))

-- A printed number is made of digits.
pub show_nat-IsDigit : (n : ℕ) → All IsDigit (show_nat n)
unfolding show_nat
show_nat-IsDigit n = digits-IsDigit (suc n) n [] tt

digits-ne-nil : (fuel n : ℕ) (out : Text) → out ≢ [] → digits fuel n out ≢ []
unfolding digits
digits-ne-nil zero n out h = h
digits-ne-nil (suc fuel) n out h =
    ground (arith, digits-ne-nil fuel (n / 10) ((b'0' + n % 10) ∷ out) (cons-ne-nil _ _))

pub show_nat-ne-nil : (n : ℕ) → show_nat n ≢ []
unfolding show_nat digits
show_nat-ne-nil n =
    ground (arith, digits-ne-nil n (n / 10) ((b'0' + n % 10) ∷ []) (cons-ne-nil _ _))

parse_uint-scan : (s : Text) → s ≢ [] → parse_uint s ≡ scan s 0
unfolding parse_uint
parse_uint-scan [] h = absurd (h refl)
parse_uint-scan (c ∷ s) h = refl

atoi-digits :
    (s : Text) (n : ℕ)
    → s ≢ []
    → All IsDigit s
    → parse_uint s ≡ (n, none)
    → n < 2 ^ 63
    → atoi s ≡ (pos n, none)
unfolding atoi
atoi-digits [] n ne ds e h = absurd (ne refl)
atoi-digits (c ∷ s) n ne ds e h = ground arith

-- A number below 2 ^ 63 is read back from its decimal print, without an error.
pub atoi-show_nat : (n : ℕ) → n < 2 ^ 63 → atoi (show_nat n) ≡ (pos n, none)
atoi-show_nat n h =
    atoi-digits (show_nat n) n (show_nat-ne-nil n) (show_nat-IsDigit n)
      (rw (parse_uint-scan _ (show_nat-ne-nil n))
        (unfold show_nat scan in scan-digits (suc n) n [] (omega arith) (omega arith)))
      h

IsDigit-Lacks : (b : ℕ) (s : Text) → ¬ IsDigit b → All IsDigit s → Lacks b s
IsDigit-Lacks b [] h ds = tt
IsDigit-Lacks b (c ∷ s) h ds = (λ e. h (rw e at ds.0), IsDigit-Lacks b s h ds.1)

-- A printed number holds no byte that is not a digit.
pub show_nat-Lacks : (b n : ℕ) → ¬ IsDigit b → Lacks b (show_nat n)
show_nat-Lacks b n h = IsDigit-Lacks b (show_nat n) h (show_nat-IsDigit n)
