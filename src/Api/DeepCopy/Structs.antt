-- ===== src/Api/DeepCopy/Structs.antt =====
-- The structs of api/v1alpha1 as they stand in memory: a map, a slice and a pointer are addresses.
use yet_another_mysql_operat.Prelude.{ℕ, List, Option, ◌==◌, if◌then◌else◌}
use yet_another_mysql_operat.Prelude.Text.{Text}
use yet_another_mysql_operat.Prelude.Decimal.{ℤ}
use yet_another_mysql_operat.Api.{MysqlConf, GroupReplicationSpec, MySqlStatus}

abbrev pub Address : Type 0
Address = ℕ

-- `MySQLSpec`, with what its map is given by: its address, or its entries. A nil map is `none`.
pub record Spec (Conf : Type 0) : Type 0 where
  pub image : Text
  pub init_image : Text
  pub storage_class_name : Text
  pub storage_size : Text
  pub port : ℤ
  pub root_password_secret_name : Text
  pub mysql_conf : Option Conf
  pub replicas : ℤ
  pub group_replication : GroupReplicationSpec

-- `metav1.TypeMeta`
pub record TypeMeta : Type 0 where
  pub kind : Text
  pub api_version : Text

-- `MySQL`
pub record Object (Meta Conf : Type 0) : Type 0 where
  pub type_meta : TypeMeta
  pub meta : Meta
  pub spec : Spec Conf
  pub status : MySqlStatus

-- `MySQLList`, with what its slice is given by. A nil slice is `none`.
pub record ObjectList (ListMeta Items : Type 0) : Type 0 where
  pub type_meta : TypeMeta
  pub meta : ListMeta
  pub items : Option Items

-- What an address holds: it has a place for each type, and is used at one. The library's metadata refers
-- to places of its own.
pub record Cell (Meta ListMeta Other : Type 0) : Type 0 where
  pub conf : MysqlConf
  pub group_replication : GroupReplicationSpec
  pub status : MySqlStatus
  pub spec : Spec Address
  pub object : Object Meta Address
  pub objects : List (Object Meta Address)
  pub list : ObjectList ListMeta Address
  pub other : Other

-- Cells at addresses, of which those below `next` are in use.
pub record Memory (C : Type 0) : Type 0 where
  pub next : Address
  pub at : Address → C

abbrev pub Action : Type 0 → Type 0 → Type 0
Action C A = Memory C → A × Memory C

unfoldable pub write : {C : Type 0} → Address → C → Memory C → Memory C
write p c m = record m { at = λ q. if q == p then c else m.at q }
