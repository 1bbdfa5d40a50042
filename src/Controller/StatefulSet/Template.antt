-- ===== src/Controller/StatefulSet/Template.antt =====
-- The function that `reconcileStatefulSet` hands to `CreateOrUpdate`.
pub mod Laws
pub mod References
use yet_another_mysql_operat.Prelude.{
  ℕ, false, true, List, [], ◌∷◌, Option, none, some, if◌then◌else◌,
}
use yet_another_mysql_operat.Prelude.Result.{Result, ok, err, Error, continue}
use yet_another_mysql_operat.Prelude.Text.{Text, codes, is_empty}
use yet_another_mysql_operat.Prelude.Assoc
use yet_another_mysql_operat.Prelude.Assoc.{Map}
use yet_another_mysql_operat.Prelude.Decimal.{show_int}
use yet_another_mysql_operat.Api.{MySql}
use yet_another_mysql_operat.Util.{
  config_hash_annotation, conf_d_path, conf_volume_mount_path, data_volume_mount_path,
  key_mount_path, root_user_env, replication_user_env, replication_rsa_private_key,
  replication_rsa_public_key,
}
use yet_another_mysql_operat.Controller.Objects.{ObjectMeta, named}
use yet_another_mysql_operat.Controller.StatefulSet.{
  TopologySpreadConstraint, WeightedPodAffinityTerm, PodSecurityContext, EnvVar, value, field_ref,
  secret_key_ref, VolumeMount, Probe, Container, config_map, empty_dir, secret, Volume, PodTemplate,
  VolumeClaim, StatefulSet,
}

abbrev pub app_labels : MySql → Map Text
app_labels mysql = (codes "app", mysql.name) ∷ []

unfoldable pub spread : MySql → TopologySpreadConstraint
spread mysql = record {
  max_skew = 1;
  topology_key = codes "kubernetes.io/hostname";
  when_unsatisfiable = codes "DoNotSchedule";
  match_labels = app_labels mysql;
}

unfoldable pub anti_affinity : MySql → WeightedPodAffinityTerm
anti_affinity mysql = record {
  weight = 100;
  topology_key = codes "kubernetes.io/hostname";
  match_labels = app_labels mysql;
}

unfoldable pub security_context : PodSecurityContext
security_context = record {
  run_as_user = 999;
  run_as_group = 999;
  fs_group = 999;
  fs_group_change_policy = codes "OnRootMismatch";
}

abbrev pub mount : Text → Text → VolumeMount
mount name path = record { name = name; mount_path = path; read_only = false }

unfoldable pub init_env : MySql → List EnvVar
init_env mysql =
    record { name = codes "POD_NAME"; source = field_ref (codes "metadata.name") }
    ∷ record { name = codes "POD_NAMESPACE"; source = field_ref (codes "metadata.namespace") }
    ∷ record { name = codes "POD_IP"; source = field_ref (codes "status.podIP") }
    ∷ record { name = codes "GR_REPLICAS"; source = value (show_int mysql.spec.replicas) }
    ∷ record { name = codes "MYSQL_PORT"; source = value (show_int mysql.spec.port) }
    ∷ record {
      name = codes "GR_GROUP_NAME";
      source = value mysql.spec.group_replication.group_name;
    }
    ∷ []

unfoldable pub init_container : MySql → Container
unfolding init_env
init_container mysql = record {
  name = codes "bootstrap-conf-d";
  image = mysql.spec.init_image;
  image_pull_policy = codes "Always";
  ports = [];
  env = init_env mysql;
  volume_mounts = mount (codes "conf-d") (codes "/etc/mysql/conf.d") ∷ [];
  readiness_probe = none;
  liveness_probe = none;
}

unfoldable pub readiness_probe : Probe
readiness_probe = record {
  command =
      codes "sh"
      ∷ codes "-c"
      ∷ codes
          "MYSQL_PWD=\"$MYSQL_ROOT_PASSWORD\" mysql --protocol=socket --connect-timeout=3 -uroot -Nse \"SELECT 1\""
      ∷ [];
  initial_delay_seconds = 30;
  period_seconds = 10;
  timeout_seconds = 5;
  failure_threshold = 6;
}

unfoldable pub liveness_probe : Probe
liveness_probe = record {
  command =
      codes "sh"
      ∷ codes "-c"
      ∷ codes
          "MYSQL_PWD=\"$MYSQL_ROOT_PASSWORD\" mysqladmin --protocol=socket --connect-timeout=3 --silent -uroot ping"
      ∷ [];
  initial_delay_seconds = 60;
  period_seconds = 10;
  timeout_seconds = 5;
  failure_threshold = 6;
}

-- The arguments `secretName` and `replSecretName`.
unfoldable pub mysql_container : MySql → Text → Text → Container
mysql_container mysql secret_name repl_secret_name = record {
  name = codes "mysql";
  image = mysql.spec.image;
  image_pull_policy = [];
  ports = (codes "mysql", mysql.spec.port) ∷ [];
  env =
      record { name = root_user_env; source = secret_key_ref secret_name root_user_env }
      ∷ record {
        name = replication_user_env;
        source = secret_key_ref repl_secret_name replication_user_env;
      }
      ∷ [];
  volume_mounts =
      mount (codes "run") (codes "/var/run/mysqld")
      ∷ mount (codes "data") data_volume_mount_path
      ∷ mount (codes "conf") conf_volume_mount_path
      ∷ mount (codes "conf-d") conf_d_path
      ∷ record { name = codes "replication-rsa"; mount_path = key_mount_path; read_only = true }
      ∷ [];
  readiness_probe = some readiness_probe;
  liveness_probe = some liveness_probe;
}

-- The arguments `replSecretName` and `cfgName`.
unfoldable pub volumes : Text → Text → List Volume
volumes repl_secret_name cfg_name =
    record {
      name = codes "conf";
      source = config_map cfg_name ((codes "my.cnf", codes "my.cnf") ∷ []);
    }
    ∷ record { name = codes "conf-d"; source = empty_dir }
    ∷ record {
      name = codes "replication-rsa";
      source = secret repl_secret_name (
          (replication_rsa_private_key, replication_rsa_private_key)
          ∷ (replication_rsa_public_key, replication_rsa_public_key)
          ∷ []);
    }
    ∷ record { name = codes "run"; source = empty_dir }
    ∷ []

unfoldable pub claim : {Quantity : Type 0} → MySql → Quantity → VolumeClaim Quantity
claim mysql storage = record {
  name = codes "data";
  access_modes = codes "ReadWriteOnce" ∷ [];
  storage = storage;
  storage_class_name =
      if is_empty mysql.spec.storage_class_name then none else some mysql.spec.storage_class_name;
}

-- The new template; other annotations than the hash of the configuration are kept.
unfoldable pub pod_template : MySql → Text → Text → Text → Text → Map Text → PodTemplate
pod_template mysql secret_name repl_secret_name cfg_name config_hash annotations = record {
  labels = app_labels mysql;
  annotations = Assoc.put config_hash_annotation config_hash annotations;
  topology_spread_constraints = spread mysql ∷ [];
  pod_anti_affinity = anti_affinity mysql ∷ [];
  security_context = some security_context;
  init_containers = init_container mysql ∷ [];
  containers = mysql_container mysql secret_name repl_secret_name ∷ [];
  volumes = volumes repl_secret_name cfg_name;
}

-- The first error ends the function.
abbrev pub and_then : {A B : Type 0} → Result A → (A → Result B) → Result B
and_then (ok a) f = f a
and_then (err e) f = err e

module _ {Quantity : Type 0} (set_controller_reference : MySql → ObjectMeta → Result ObjectMeta)
    (must_parse : Text → Result Quantity) where
  -- `resource.MustParse` panics on a text that is no quantity: here an error.
  unfoldable pub mutate_stateful_set :
      MySql → Text → Text → Text → Text → StatefulSet Quantity → Result (StatefulSet Quantity)
  mutate_stateful_set mysql secret_name repl_secret_name cfg_name config_hash sts =
      and_then (set_controller_reference mysql sts.meta) λ meta.
        and_then (must_parse mysql.spec.storage_size) λ storage. ok (record {
          meta = meta;
          replicas = some mysql.spec.replicas;
          service_name = mysql.name;
          match_labels = app_labels mysql;
          template =
              pod_template mysql secret_name repl_secret_name cfg_name config_hash
                sts.template.annotations;
          volume_claim_templates = claim mysql storage ∷ [];
          ready_replicas = sts.ready_replicas;
        })
