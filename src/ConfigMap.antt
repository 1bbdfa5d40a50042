-- ===== src/ConfigMap.antt =====
-- `RenderMySQLConfig` of internal/controller/k8s/configmap/config_map.go, with its tables.
pub mod Precedence
pub mod Order
pub mod RedoLog
use yet_another_mysql_operat.Prelude.{List, [], ◌∷◌, ◌++◌, Option, none, some, if◌then◌else◌}
use yet_another_mysql_operat.Prelude.Text.{Text, codes, is_empty}
use yet_another_mysql_operat.Prelude.Assoc.{Map, get, put, keys}
use yet_another_mysql_operat.Prelude.Sort.{sort_texts}
use yet_another_mysql_operat.Api.{IntOrString, MysqlConf}

unfoldable pub default_my_cnf : Map Text
unfolding codes
default_my_cnf =
    (codes "binlog_expire_logs_seconds", codes "1209600")
    ∷ (
      codes "sql-mode",
      codes
          "STRICT_TRANS_TABLES,ERROR_FOR_DIVISION_BY_ZERO,NO_AUTO_VALUE_ON_ZERO,NO_ENGINE_SUBSTITUTION,NO_ZERO_DATE,NO_ZERO_IN_DATE,ONLY_FULL_GROUP_BY",
    )
    ∷ (codes "character-set-server", codes "utf8mb4")
    ∷ (codes "collation-server", codes "utf8mb4_unicode_ci")
    ∷ (codes "default-storage-engine", codes "InnoDB")
    ∷ (codes "enforce-gtid-consistency", codes "on")
    ∷ (codes "gtid-mode", codes "on")
    ∷ (codes "innodb-file-per-table", codes "1")
    ∷ (codes "innodb-flush-log-at-trx-commit", codes "2")
    ∷ (codes "innodb-flush-method", codes "O_DIRECT")
    ∷ (codes "innodb-redo_log_capacity", codes "2")
    ∷ (codes "key-buffer-size", codes "32M")
    ∷ (codes "log-bin", codes "/var/lib/mysql/mysql-bin")
    ∷ (codes "log-replica-updates", codes "on")
    ∷ (codes "max-allowed-packet", codes "16M")
    ∷ (codes "max-connect-errors", codes "1000000")
    ∷ (codes "max-connections", codes "500")
    ∷ (codes "max-heap-table-size", codes "32M")
    ∷ (codes "myisam-recover-options", codes "FORCE,BACKUP")
    ∷ (codes "open-files-limit", codes "65535")
    ∷ (codes "relay-log-recovery", codes "on")
    ∷ (codes "skip-replica-start", codes "off")
    ∷ (codes "sync-binlog", codes "1")
    ∷ (codes "sysdate-is-now", codes "1")
    ∷ (codes "table-definition-cache", codes "4096")
    ∷ (codes "table-open-cache", codes "4096")
    ∷ (codes "thread-cache-size", codes "50")
    ∷ (codes "tmp-table-size", codes "32M")
    ∷ (codes "binlog-space-limit", codes "16G")
    ∷ (codes "disabled-storage-engines", codes "MyISAM")
    ∷ (codes "innodb-buffer-pool-instances", codes "4")
    ∷ (codes "innodb-buffer-pool-size", codes "512M")
    ∷ (codes "innodb-log-buffer-size", codes "64M")
    ∷ (codes "innodb-redo-log-capacity", codes "1G")
    ∷ (codes "join-buffer-size", codes "4M")
    ∷ (codes "max-binlog-size", codes "1G")
    ∷ (codes "sort-buffer-size", codes "4M")
    ∷ (codes "caching_sha2_password_private_key_path", codes "/etc/mysql/rsa/rsa_private_key.pem")
    ∷ (codes "caching_sha2_password_public_key_path", codes "/etc/mysql/rsa/rsa_public_key.pem")
    ∷ (codes "caching_sha2_password_auto_generate_rsa_keys", codes "OFF")
    ∷ (
      codes "loose-group_replication_recovery_public_key_path",
      codes "/etc/mysql/rsa/rsa_public_key.pem",
    )
    ∷ (codes "loose-group_replication_recovery_use_ssl", codes "OFF")
    ∷ []

unfoldable pub default_my_cnf_boolean_flags : List Text
unfolding codes
default_my_cnf_boolean_flags = codes "skip-name-resolve" ∷ []

-- `for k, v := range source { effective[k] = v }`
unfoldable pub copy_all : Map Text → Map Text → Map Text
copy_all [] effective = effective
copy_all ((k, v) ∷ source) effective = copy_all source (put k v effective)

-- A flag that is not there is put with no value.
abbrev pub put_missing : Text → Map Text → Option Text → Map Text
put_missing flag effective (some v) = effective
put_missing flag effective none = put flag [] effective

unfoldable pub add_flags : List Text → Map Text → Map Text
add_flags [] effective = effective
add_flags (flag ∷ flags) effective =
    add_flags flags (put_missing flag effective (get flag effective))

-- `if len(source) == 0 { source = defaultMyCnf }`
abbrev pub or_default : Map Text → Map Text
or_default [] = default_my_cnf
or_default (e ∷ base) = e ∷ base

-- `effective[k]` at a key that is there
abbrev pub value_of : Option Text → Text
value_of none = []
value_of (some v) = v

unfoldable pub render_line : Text → Text → Text
render_line k v = if is_empty v then k ++ codes "\n" else k ++ (codes " = " ++ (v ++ codes "\n"))

unfoldable pub render_lines : Map Text → List Text → Text
unfolding render_line
render_lines effective [] = []
render_lines effective (k ∷ ks) =
    render_line k (value_of (get k effective)) ++ render_lines effective ks

-- `v.String()` of the Kubernetes library is the parameter.
module _ (string_of : IntOrString → Text) where
  unfoldable pub put_overrides : MysqlConf → Map Text → Map Text
  put_overrides [] effective = effective
  put_overrides ((k, v) ∷ overrides) effective =
      put_overrides overrides (put k (string_of v) effective)

  -- The map `effective` once it is filled.
  unfoldable pub effective_config : Map Text → MysqlConf → Map Text
  unfolding copy_all add_flags put_overrides
  effective_config base overrides =
      put_overrides overrides
        (add_flags default_my_cnf_boolean_flags (copy_all (or_default base) []))

  unfoldable pub render_mysql_config : Map Text → MysqlConf → Text
  unfolding render_lines effective_config
  render_mysql_config base overrides =
      let effective = effective_config base overrides in
      codes "[mysqld]\n"
      ++ (render_lines effective (sort_texts (keys effective))
          ++ codes "!includedir /etc/mysql/conf.d\n")
