-- ===== src/Controller/Names.antt =====
-- `buildResourceNames` and `replicationSecretName`.
use yet_another_mysql_operat.Prelude.{◌++◌, if◌then◌else◌}
use yet_another_mysql_operat.Prelude.Text.{Text, codes, is_empty}
use yet_another_mysql_operat.Api.{MySql}
use yet_another_mysql_operat.Util.{cluster_secret_name, replication_secret_suffix}

pub record ResourceNames : Type 0 where
  pub cluster : Text
  pub secret : Text
  pub repl_sec : Text
  pub config : Text
  pub service : Text
  pub sts : Text

unfoldable pub replication_secret_name : MySql → Text
replication_secret_name m =
    if is_empty m.spec.group_replication.replication_user_secret
    then m.name ++ replication_secret_suffix
    else m.spec.group_replication.replication_user_secret

unfoldable pub build_resource_names : MySql → ResourceNames
build_resource_names m = record {
  cluster = m.name;
  secret = cluster_secret_name m;
  repl_sec = replication_secret_name m;
  config = m.name ++ codes "-mycnf";
  service = m.name;
  sts = m.name;
}
