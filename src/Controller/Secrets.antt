-- ===== src/Controller/Secrets.antt =====
-- internal/controller/secrets.go: what the reconciler puts into its two secrets. The functions here
-- are the ones that `controllerutil.CreateOrUpdate` is given.
pub mod Laws
use yet_another_mysql_operat.Prelude.{◌&&◌, [], if◌then◌else◌}
use yet_another_mysql_operat.Prelude.Result.{Result, Exec, pure, lift, ◌>>=◌}
use yet_another_mysql_operat.Prelude.Text.{Text, codes}
use yet_another_mysql_operat.Prelude.Assoc
use yet_another_mysql_operat.Prelude.Assoc.{Map, is_some}
use yet_another_mysql_operat.Api.{MySql}
use yet_another_mysql_operat.Util.{
  root_user_env, replication_user_env, replication_rsa_private_key, replication_rsa_public_key,
}
use yet_another_mysql_operat.Controller.Objects.{ObjectMeta, Secret, named}
use yet_another_mysql_operat.Controller.Crypto.{CryptoOps, base64}

module _ {Key W : Type 0} (crypto : CryptoOps Key W) where
  -- `if _, ok := secret.Data[key]; !ok { … }`, with a password of 20 random bytes
  unfoldable pub put_password : Text → Map Text → Exec W (Map Text)
  put_password key contents =
      if is_some (Assoc.get key contents)
      then pure contents
      else do pw ← crypto.random_bytes 20; pure (Assoc.put key (base64 pw) contents)

  -- `generateReplicationRSAKeyPair`
  unfoldable pub generate_replication_rsa_key_pair : Exec W (Text × Text)
  generate_replication_rsa_key_pair = do
    key ← crypto.generate_key 2048
    pub_der ← lift (crypto.marshal_public key)
    pure (
      crypto.pem_encode (codes "RSA PRIVATE KEY") (crypto.marshal_private key),
      crypto.pem_encode (codes "PUBLIC KEY") pub_der,
    )

  -- Both keys are written anew where one of them is missing.
  unfoldable pub put_key_pair : Map Text → Exec W (Map Text)
  unfolding generate_replication_rsa_key_pair
  put_key_pair contents =
      if is_some (Assoc.get replication_rsa_private_key contents)
        && is_some (Assoc.get replication_rsa_public_key contents)
      then pure contents
      else do
        pair ← generate_replication_rsa_key_pair
        pure (
            Assoc.put replication_rsa_public_key pair.1
              (Assoc.put replication_rsa_private_key pair.0 contents))

  module _ (set_controller_reference : MySql → ObjectMeta → Result ObjectMeta) (mysql : MySql) where
    unfoldable pub mutate_root_secret : Secret → Exec W Secret
    unfolding put_password
    mutate_root_secret secret = do
      meta ← lift (set_controller_reference mysql secret.meta)
      contents ← put_password root_user_env secret.contents
      pure (record { meta = meta; contents = contents })

    unfoldable pub mutate_replication_secret : Secret → Exec W Secret
    unfolding put_password put_key_pair
    mutate_replication_secret secret = do
      meta ← lift (set_controller_reference mysql secret.meta)
      contents ← put_password replication_user_env secret.contents
      contents' ← put_key_pair contents
      pure (record { meta = meta; contents = contents' })

-- The secret that `CreateOrUpdate` starts from.
unfoldable pub new_secret : MySql → Text → Secret
new_secret mysql name = record { meta = named name mysql.namespace; contents = [] }
