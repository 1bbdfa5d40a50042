-- ===== src/Controller/StatefulSet.antt =====
-- The types of the objects that `reconcileStatefulSet` fills, as far as it does. An unset pointer is
-- `none`, and what the API server or a user may have put into other fields is not modelled.
pub mod Template
use yet_another_mysql_operat.Prelude.{ℕ, Bool, List, Option}
use yet_another_mysql_operat.Prelude.Text.{Text}
use yet_another_mysql_operat.Prelude.Assoc.{Map}
use yet_another_mysql_operat.Prelude.Decimal.{ℤ}
use yet_another_mysql_operat.Controller.Objects.{ObjectMeta}

pub record TopologySpreadConstraint : Type 0 where
  pub max_skew : ℕ
  pub topology_key : Text
  pub when_unsatisfiable : Text
  pub match_labels : Map Text

pub record WeightedPodAffinityTerm : Type 0 where
  pub weight : ℕ
  pub topology_key : Text
  pub match_labels : Map Text

pub record PodSecurityContext : Type 0 where
  pub run_as_user : ℕ
  pub run_as_group : ℕ
  pub fs_group : ℕ
  pub fs_group_change_policy : Text

-- Where a variable's value comes from.
pub data EnvSource : Type 0 where
  value : Text → EnvSource
  field_ref : Text → EnvSource
  secret_key_ref : Text → Text → EnvSource

pub record EnvVar : Type 0 where
  pub name : Text
  pub source : EnvSource

pub record VolumeMount : Type 0 where
  pub name : Text
  pub mount_path : Text
  pub read_only : Bool

pub record Probe : Type 0 where
  pub command : List Text
  pub initial_delay_seconds : ℕ
  pub period_seconds : ℕ
  pub timeout_seconds : ℕ
  pub failure_threshold : ℕ

pub record Container : Type 0 where
  pub name : Text
  pub image : Text
  pub image_pull_policy : Text
  pub ports : List (Text × ℤ)
  pub env : List EnvVar
  pub volume_mounts : List VolumeMount
  pub readiness_probe : Option Probe
  pub liveness_probe : Option Probe

-- A key of a secret or config map, and the path that it is mounted at.
pub data VolumeSource : Type 0 where
  config_map : Text → List (Text × Text) → VolumeSource
  empty_dir : VolumeSource
  secret : Text → List (Text × Text) → VolumeSource

pub record Volume : Type 0 where
  pub name : Text
  pub source : VolumeSource

pub record PodTemplate : Type 0 where
  pub labels : Map Text
  pub annotations : Map Text
  pub topology_spread_constraints : List TopologySpreadConstraint
  pub pod_anti_affinity : List WeightedPodAffinityTerm
  pub security_context : Option PodSecurityContext
  pub init_containers : List Container
  pub containers : List Container
  pub volumes : List Volume

-- A claim requests storage; `Quantity` is the type of `resource.MustParse`'s result.
pub record VolumeClaim (Quantity : Type 0) : Type 0 where
  pub name : Text
  pub access_modes : List Text
  pub storage : Quantity
  pub storage_class_name : Option Text

pub record StatefulSet (Quantity : Type 0) : Type 0 where
  pub meta : ObjectMeta
  pub replicas : Option ℤ
  pub service_name : Text
  pub match_labels : Map Text
  pub template : PodTemplate
  pub volume_claim_templates : List (VolumeClaim Quantity)
  pub ready_replicas : ℤ
