-- ===== src/Controller/Objects.antt =====
-- The Kubernetes objects that the controller reads and writes, as far as it does.
use yet_another_mysql_operat.Prelude.{List, []}
use yet_another_mysql_operat.Prelude.Text.{Text}
use yet_another_mysql_operat.Prelude.Assoc.{Map}
use yet_another_mysql_operat.Prelude.Decimal.{ℤ}

pub record ObjectMeta : Type 0 where
  pub name : Text
  pub namespace : Text
  pub labels : Map Text
  pub owner_references : List Text

-- `corev1.PodCondition`
pub record Condition : Type 0 where
  pub kind : Text
  pub status : Text

pub record Pod : Type 0 where
  pub name : Text
  pub pod_ip : Text
  pub conditions : List Condition

-- A nil map and an empty one are not told apart, nor are a nil value and a missing key.
pub record Secret : Type 0 where
  pub meta : ObjectMeta
  pub contents : Map Text

pub record ConfigMap : Type 0 where
  pub meta : ObjectMeta
  pub contents : Map Text

pub record ServicePort : Type 0 where
  pub name : Text
  pub port : ℤ
  pub target_port : ℤ

pub record Service : Type 0 where
  pub meta : ObjectMeta
  pub selector : Map Text
  pub ports : List ServicePort
  pub cluster_ip : Text

-- A new object's metadata.
abbrev pub named : Text → Text → ObjectMeta
named name namespace = record {
  name = name;
  namespace = namespace;
  labels = [];
  owner_references = [];
}
