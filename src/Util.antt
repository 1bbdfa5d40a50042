-- ===== src/Util.antt =====
-- internal/controller/util: the constants, the name of the root secret and the hash of the
-- configuration.
pub mod Hash
use yet_another_mysql_operat.Prelude.{◌++◌, if◌then◌else◌}
use yet_another_mysql_operat.Prelude.Text.{Text, codes, is_empty}
use yet_another_mysql_operat.Api.{MySql}

unfoldable pub root_user_env : Text
unfolding codes
root_user_env = codes "MYSQL_ROOT_PASSWORD"

unfoldable pub default_secret_suffix : Text
unfolding codes
default_secret_suffix = codes "-root-credentials"

unfoldable pub replication_user_env : Text
unfolding codes
replication_user_env = codes "MYSQL_REPLICATION_PASSWORD"

unfoldable pub replication_secret_suffix : Text
unfolding codes
replication_secret_suffix = codes "-replication-credentials"

unfoldable pub conf_volume_mount_path : Text
unfolding codes
conf_volume_mount_path = codes "/etc/mysql"

unfoldable pub data_volume_mount_path : Text
unfolding codes
data_volume_mount_path = codes "/var/lib/mysql"

unfoldable pub conf_d_path : Text
unfolding codes
conf_d_path = codes "/etc/mysql/conf.d"

unfoldable pub key_mount_path : Text
unfolding codes
key_mount_path = codes "/etc/mysql/rsa"

unfoldable pub replication_rsa_private_key : Text
unfolding codes
replication_rsa_private_key = codes "rsa_private_key.pem"

unfoldable pub replication_rsa_public_key : Text
unfolding codes
replication_rsa_public_key = codes "rsa_public_key.pem"

unfoldable pub config_hash_annotation : Text
unfolding codes
config_hash_annotation = codes "yamo/config-hash"

-- `ClusterSecretName`
unfoldable pub cluster_secret_name : MySql → Text
cluster_secret_name m =
    if is_empty m.spec.root_password_secret_name
    then m.name ++ default_secret_suffix
    else m.spec.root_password_secret_name
