-- ===== src/Controller/Crypto.antt =====
-- What internal/controller/secrets.go uses of Go's `crypto` packages, as an interface, and base64.
use yet_another_mysql_operat.Prelude.{
  ◌≡◌, refl, ℕ, ◌+◌, ◌-◌, ◌*◌, ◌/◌, ◌%◌, [], ◌∷◌, if◌then◌else◌, ltb, ◌==◌,
}
use yet_another_mysql_operat.Prelude.Result.{Result, Exec}
use yet_another_mysql_operat.Prelude.Text.{Text, codes}

pub record CryptoOps (Key W : Type 0) : Type 0 where
  -- The bytes that `rand.Read` fills a slice of this length with; the source drops its error.
  pub random_bytes : ℕ → Exec W Text
  -- `rsa.GenerateKey(rand.Reader, bits)`
  pub generate_key : ℕ → Exec W Key
  -- `x509.MarshalPKCS1PrivateKey(key)` and `x509.MarshalPKIXPublicKey(&key.PublicKey)`
  pub marshal_private : Key → Text
  pub marshal_public : Key → Result Text
  -- `pem.EncodeToMemory` of a block with this type and these bytes
  pub pem_encode : Text → Text → Text

-- The alphabet of `base64.StdEncoding`.
unfoldable pub base64_char : ℕ → ℕ
base64_char n =
    if ltb n 26
    then b'A' + n
    else if ltb n 52
    then b'a' + (n - 26)
    else if ltb n 62
    then b'0' + (n - 52)
    else if n == 62
    then b'+'
    else b'/'

-- `base64.StdEncoding.EncodeToString`
unfoldable pub base64 : Text → Text
unfolding base64_char
base64 [] = []
base64 (a ∷ []) = base64_char (a / 4) ∷ base64_char (a % 4 * 16) ∷ b'=' ∷ b'=' ∷ []
base64 (a ∷ b ∷ []) =
    base64_char (a / 4) ∷ base64_char (a % 4 * 16 + b / 16) ∷ base64_char (b % 16 * 4) ∷ b'=' ∷ []
base64 (a ∷ b ∷ c ∷ s) =
    base64_char (a / 4)
    ∷ base64_char (a % 4 * 16 + b / 16)
    ∷ base64_char (b % 16 * 4 + c / 64)
    ∷ base64_char (c % 64)
    ∷ base64 s

base64_runs : base64 (codes "operator") ≡ codes "b3BlcmF0b3I="
unfolding base64 codes
base64_runs = refl
