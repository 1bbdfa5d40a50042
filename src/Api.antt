-- ===== src/Api.antt =====
-- The package api/v1alpha1: the custom resource, and below this module the defaulting webhook and the
-- deep copies.
pub mod Webhook
pub mod DeepCopy
use yet_another_mysql_operat.Prelude.{Bool, ℕ}
use yet_another_mysql_operat.Prelude.Text.{Text, codes}
use yet_another_mysql_operat.Prelude.Assoc.{Map}
use yet_another_mysql_operat.Prelude.Decimal.{ℤ}

-- `intstr.IntOrString`
pub data IntOrString : Type 0 where
  int : ℤ → IntOrString
  str : Text → IntOrString

abbrev pub MysqlConf : Type 0
MysqlConf = Map IntOrString

-- `GroupReplicationMode` is a string, with two named values.
unfoldable pub single_primary : Text
unfolding codes
single_primary = codes "SinglePrimary"

unfoldable pub multi_primary : Text
unfolding codes
multi_primary = codes "MultiPrimary"

pub record GroupReplicationSpec : Type 0 where
  pub group_name : Text
  pub mode : Text
  pub replication_user_secret : Text
  pub seed_count : ℤ
  pub force_bootstrap : Bool
  pub member_weight : ℤ

pub record MySqlSpec : Type 0 where
  pub image : Text
  pub init_image : Text
  pub storage_class_name : Text
  pub storage_size : Text
  pub port : ℤ
  pub root_password_secret_name : Text
  pub mysql_conf : MysqlConf
  pub replicas : ℤ
  pub group_replication : GroupReplicationSpec

pub record MySqlStatus : Type 0 where
  pub phase : Text
  pub message : Text
  pub ready_replicas : ℤ
  pub current_replicas : ℤ
  pub group_replication_bootstrapped : Bool
  pub restart_candidate : Text

-- Of `metav1.ObjectMeta` the program reads the name and the namespace; the API server reads the
-- resource version on an update.
pub record MySql : Type 0 where
  pub name : Text
  pub namespace : Text
  pub resource_version : ℕ
  pub spec : MySqlSpec
  pub status : MySqlStatus
