-- ===== src/Api/Webhook.antt =====
-- `Default` of api/v1alpha1/mysql_webhook.go.
pub mod Laws
use yet_another_mysql_operat.Prelude.{if◌then◌else◌}
use yet_another_mysql_operat.Prelude.Text.{Text, codes, is_empty}
use yet_another_mysql_operat.Prelude.Decimal.{ℤ, pos, int_eq}
use yet_another_mysql_operat.Api.{MySql, MySqlSpec, GroupReplicationSpec, single_primary}

unfoldable pub default_image : Text
unfolding codes
default_image = codes "percona/percona-server:8.4"

unfoldable pub default_storage_size : Text
unfolding codes
default_storage_size = codes "10Gi"

-- What the API server hands to the webhook: the type assertion `obj.(*MySQL)` may fail.
pub data Object : Type 0 where
  mysql : MySql → Object
  other_kind : Object

abbrev pub or_text : Text → Text → Text
or_text s d = if is_empty s then d else s

abbrev pub or_int : ℤ → ℤ → ℤ
or_int n d = if int_eq n (pos 0) then d else n

-- The assignments to `mysql.Spec`; `uuid` is what `uuid.NewString()` returns.
unfoldable pub default_spec : Text → MySqlSpec → MySqlSpec
default_spec uuid s = record s {
  image = or_text s.image default_image;
  storage_size = or_text s.storage_size default_storage_size;
  port = or_int s.port (pos 3306);
  replicas = or_int s.replicas (pos 3);
  group_replication = record s.group_replication {
    mode = or_text s.group_replication.mode single_primary;
    group_name = or_text s.group_replication.group_name uuid;
  };
}

unfoldable pub default : Text → Object → Object
unfolding default_spec
default uuid (mysql m) = mysql (record m { spec = default_spec uuid m.spec })
default uuid other_kind = other_kind
