-- ===== src/Controller/Secrets/Laws.antt =====
-- What the mutations of the secrets keep, add and guarantee.
use yet_another_mysql_operat.Prelude.{
  ◌≡◌, refl, ◌∙◌, true, false, ◌&&◌, ◌⊎◌, none, some, arith, inl, inr, Bool-cases, Option-cases,
}
use yet_another_mysql_operat.Prelude.Result.{Result, ok, Exec, Result-cases}
use yet_another_mysql_operat.Prelude.Text.{Text, text_eq, text_eq_iff}
use yet_another_mysql_operat.Prelude.Assoc.{Map, is_some, get, put}
use yet_another_mysql_operat.Prelude.Assoc.Laws.{get-put}
use yet_another_mysql_operat.Api.{MySql}
use yet_another_mysql_operat.Util.{
  root_user_env, replication_user_env, replication_rsa_private_key, replication_rsa_public_key,
}
use yet_another_mysql_operat.Controller.Objects.{ObjectMeta, Secret}
use yet_another_mysql_operat.Controller.Crypto.{CryptoOps, base64}
use yet_another_mysql_operat.Controller.Secrets.{
  put_password, put_key_pair, generate_replication_rsa_key_pair, mutate_root_secret,
  mutate_replication_secret,
}

-- Nothing that was there is changed.
abbrev pub Keeps : Map Text → Map Text → Type 0
Keeps m m' = (k v : Text) → get k m ≡ some v → get k m' ≡ some v

keys_differ :
    (text_eq replication_rsa_private_key replication_user_env ≡ false)
    × (text_eq replication_rsa_public_key replication_user_env ≡ false)
    × (text_eq replication_rsa_public_key replication_rsa_private_key ≡ false)
unfolding text_eq replication_user_env replication_rsa_private_key replication_rsa_public_key
keys_differ = (refl, refl, refl)

-- The outcomes of `put_password`: the map as it was, or with a password for a key that was missing.
abbrev PasswordPut : Text → Map Text → Map Text → Type 0
PasswordPut key m m' =
    ((is_some (get key m) ≡ true) × (m' ≡ m))
    ⊎ ((pw : Text) × (get key m ≡ none) × (m' ≡ put key (base64 pw) m))

-- The outcomes of `put_key_pair`.
abbrev PairPut : Map Text → Map Text → Type 0
PairPut m m' =
    ((is_some (get replication_rsa_private_key m) ≡ true)
      × (is_some (get replication_rsa_public_key m) ≡ true)
      × (m' ≡ m))
    ⊎ ((pair : Text × Text) × ((is_some (get replication_rsa_private_key m)
            && is_some (get replication_rsa_public_key m))
          ≡ false)
        × (m' ≡ put replication_rsa_public_key pair.1 (put replication_rsa_private_key pair.0 m)))

PasswordPut-keeps :
    (key : Text) (m m' : Map Text)
    → PasswordPut key m m'
    → (k v : Text) → get k m ≡ some v
    → get k m' ≡ some v
PasswordPut-keeps key m m' (inl (there, e)) k v h = rw e h
PasswordPut-keeps key m m' (inr (pw, missing, e)) k v h =
    rw e (ground (arith, get-put key k (base64 pw) m, text_eq_iff key k))

PasswordPut-there :
    (key : Text) (m m' : Map Text) → PasswordPut key m m' → is_some (get key m') ≡ true
PasswordPut-there key m m' (inl (there, e)) = rw e there
PasswordPut-there key m m' (inr (pw, missing, e)) =
    rw e (ground (arith, get-put key key (base64 pw) m, text_eq_iff key key))

module _ {Key W : Type 0} (crypto : CryptoOps Key W) where
  put_password_outcome :
      (key : Text) (m m' : Map Text) (w : W)
      → (put_password crypto key m w).0 ≡ ok m'
      → PasswordPut key m m'
  unfolding put_password
  put_password_outcome key m m' w e = elim (Option-cases (get key m)) [
    | inl missing ↦ elim (Result-cases (crypto.random_bytes 20 w).0) [
      | inl (pw, f) ↦ inr (pw, missing, ground arith)
      | inr (f, g) ↦ ground arith
    ]
    | inr (v, there) ↦ inl (rw there, ground arith)
  ]

  put_key_pair_outcome :
      (m m' : Map Text) (w : W) → (put_key_pair crypto m w).0 ≡ ok m' → PairPut m m'
  unfolding put_key_pair
  put_key_pair_outcome m m' w e =
      elim (Bool-cases (
        is_some (get replication_rsa_private_key m)
        && is_some (get replication_rsa_public_key m))) [
          | inl both ↦ inl (ground arith, ground arith, ground arith)
          | inr missing ↦ elim (Result-cases (generate_replication_rsa_key_pair crypto w).0) [
            | inl (pair, f) ↦ inr (pair, missing, ground arith)
            | inr (f, g) ↦ ground arith
          ]
        ]

  put_password_fixed :
      (key : Text) (m : Map Text) (w : W)
      → is_some (get key m) ≡ true
      → put_password crypto key m w ≡ (ok m, w)
  unfolding put_password
  put_password_fixed key m w h = rw h

  put_key_pair_fixed :
      (m : Map Text) (w : W)
      → is_some (get replication_rsa_private_key m) ≡ true
      → is_some (get replication_rsa_public_key m) ≡ true
      → put_key_pair crypto m w ≡ (ok m, w)
  unfolding put_key_pair
  put_key_pair_fixed m w h k = rw (h, k)

  module _ (set_controller_reference : MySql → ObjectMeta → Result ObjectMeta) (mysql : MySql) where
    abbrev mutate_root : Secret → Exec W Secret
    mutate_root = mutate_root_secret crypto set_controller_reference mysql

    abbrev mutate_replication : Secret → Exec W Secret
    mutate_replication = mutate_replication_secret crypto set_controller_reference mysql

    root_outcome :
        (secret secret' : Secret) (w : W)
        → (mutate_root secret w).0 ≡ ok secret'
        → PasswordPut root_user_env secret.contents secret'.contents
    unfolding mutate_root_secret
    root_outcome secret secret' w e =
        elim (Result-cases (set_controller_reference mysql secret.meta)) [
          | inl (meta, h) ↦
              elim (Result-cases (put_password crypto root_user_env secret.contents w).0) [
                | inl (m, k) ↦
                    let same : secret'.contents ≡ m = ground arith in
                    rw same (put_password_outcome root_user_env secret.contents m w k)
                | inr (f, k) ↦ ground arith
              ]
          | inr (f, h) ↦ ground arith
        ]

    -- After a mutation that succeeds the root secret has every value that it had, and has a root
    -- password.
    pub root_secret_kept :
        (secret secret' : Secret) (w : W)
        → (mutate_root secret w).0 ≡ ok secret'
        → Keeps secret.contents secret'.contents
          × (is_some (get root_user_env secret'.contents) ≡ true)
    root_secret_kept secret secret' w e =
        let o = root_outcome secret secret' w e in
        (
          PasswordPut-keeps root_user_env secret.contents secret'.contents o,
          PasswordPut-there root_user_env secret.contents secret'.contents o,
        )

    record ReplicationOutcome (m m' : Map Text) : Type 0 where
      middle : Map Text
      password : PasswordPut replication_user_env m middle
      pair : PairPut middle m'

    replication_outcome :
        (secret secret' : Secret) (w : W)
        → (mutate_replication secret w).0 ≡ ok secret'
        → ReplicationOutcome secret.contents secret'.contents
    unfolding mutate_replication_secret
    replication_outcome secret secret' w e =
        elim (Result-cases (set_controller_reference mysql secret.meta)) [
          | inl (meta, h) ↦
              elim (Result-cases (put_password crypto replication_user_env secret.contents w).0) [
                | inl (m, k) ↦
                    let w' = (put_password crypto replication_user_env secret.contents w).1 in
                    elim (Result-cases (put_key_pair crypto m w').0) [
                      | inl (m', l) ↦
                          let same : secret'.contents ≡ m' = ground arith in
                          record {
                            middle = m;
                            password =
                                put_password_outcome replication_user_env secret.contents m w k;
                            pair = rw same (put_key_pair_outcome m m' w' l);
                          }
                      | inr (f, l) ↦ ground arith
                    ]
                | inr (f, k) ↦ ground arith
              ]
          | inr (f, h) ↦ ground arith
        ]

    PairPut-there :
        (m m' : Map Text)
        → PairPut m m'
        → (is_some (get replication_rsa_private_key m') ≡ true)
          × (is_some (get replication_rsa_public_key m') ≡ true)
          × (get replication_user_env m' ≡ get replication_user_env m)
    PairPut-there m m' (inl (a, b, e)) = rw e (a, b, refl)
    PairPut-there m m' (inr (pair, missing, e)) =
        let inner = put replication_rsa_private_key pair.0 m in
        let (private_user, public_user, public_private) = keys_differ in
        rw e (
          ground (
            arith,
            private_user,
            public_user,
            public_private,
            get-put replication_rsa_public_key replication_user_env pair.1 inner,
            get-put replication_rsa_public_key replication_rsa_private_key pair.1 inner,
            get-put replication_rsa_public_key replication_rsa_public_key pair.1 inner,
            get-put replication_rsa_private_key replication_user_env pair.0 m,
            get-put replication_rsa_private_key replication_rsa_private_key pair.0 m,
            text_eq_iff replication_rsa_public_key replication_rsa_public_key,
            text_eq_iff replication_rsa_private_key replication_rsa_private_key,
          ))

    -- After a mutation that succeeds the replication secret has its password and both keys, and a
    -- password that was there is kept.
    pub replication_secret_complete :
        (secret secret' : Secret) (w : W)
        → (mutate_replication secret w).0 ≡ ok secret'
        → (is_some (get replication_user_env secret'.contents) ≡ true)
          × (is_some (get replication_rsa_private_key secret'.contents) ≡ true)
          × (is_some (get replication_rsa_public_key secret'.contents) ≡ true)
          × ((v : Text)
              → get replication_user_env secret.contents ≡ some v
              → get replication_user_env secret'.contents ≡ some v)
    replication_secret_complete secret secret' w e =
        let o = replication_outcome secret secret' w e in
        let (a, b, c) = PairPut-there o.middle secret'.contents o.pair in
        (
          rw c (PasswordPut-there replication_user_env secret.contents o.middle o.password),
          a,
          b,
          λ v h.
              c
              ∙ PasswordPut-keeps replication_user_env secret.contents o.middle o.password
                  replication_user_env v h,
        )

    -- Once a mutation has succeeded, a second one changes no entry and not the world behind the
    -- crypto packages: it draws no randomness and generates no key.
    pub replication_secret_stable :
        (secret secret' : Secret) (w u : W) (meta : ObjectMeta)
        → (mutate_replication secret w).0 ≡ ok secret'
        → set_controller_reference mysql secret'.meta ≡ ok meta
        → mutate_replication secret' u ≡ (ok (record secret' { meta = meta }), u)
    unfolding mutate_replication_secret
    replication_secret_stable secret secret' w u meta e h =
        let (a, b, c, d) = replication_secret_complete secret secret' w e in
        ground (
          arith,
          put_password_fixed replication_user_env secret'.contents u a,
          put_key_pair_fixed secret'.contents u b c,
        )
