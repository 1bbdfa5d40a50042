-- ===== src/Controller/Stages.antt =====
-- The stages of `Reconcile` in front of group replication: `reconcileRootSecret`,
-- `reconcileReplicationSecret`, `reconcileConfigMap`, `reconcileService` and `reconcileStatefulSet`.
-- `controllerutil.CreateOrUpdate` is a parameter for each kind of object.
use yet_another_mysql_operat.Prelude.{[], ◌∷◌, none}
use yet_another_mysql_operat.Prelude.Decimal.{pos}
use yet_another_mysql_operat.Prelude.Result.{Result, Exec, pure, lift, ◌>>=◌}
use yet_another_mysql_operat.Prelude.Text.{Text, codes}
use yet_another_mysql_operat.Prelude.Assoc
use yet_another_mysql_operat.Api.{MySql, IntOrString}
use yet_another_mysql_operat.ConfigMap.{render_mysql_config}
use yet_another_mysql_operat.Controller.Objects.{ObjectMeta, Secret, ConfigMap, Service, named}
use yet_another_mysql_operat.Controller.Crypto.{CryptoOps}
use yet_another_mysql_operat.Controller.Env.{State, wrote_object, issue, get_mysql}
use yet_another_mysql_operat.Controller.Secrets.{
  mutate_root_secret, mutate_replication_secret, new_secret,
}
use yet_another_mysql_operat.Controller.StatefulSet.{StatefulSet, PodTemplate}
use yet_another_mysql_operat.Controller.StatefulSet.Template.{mutate_stateful_set}

pub record Cluster (Key Quantity W : Type 0) : Type 0 where
  pub crypto : CryptoOps Key W
  pub set_controller_reference : MySql → ObjectMeta → Result ObjectMeta
  pub must_parse : Text → Result Quantity
  pub sha256_hex : Text → Text
  pub string_of : IntOrString → Text
  pub create_or_update_secret : Secret → (Secret → Exec W Secret) → Exec W (Unit {0})
  pub create_or_update_config_map : ConfigMap → (ConfigMap → Exec W ConfigMap) → Exec W (Unit {0})
  pub create_or_update_service : Service → (Service → Exec W Service) → Exec W (Unit {0})
  pub create_or_update_stateful_set :
      StatefulSet Quantity
      → (StatefulSet Quantity → Exec W (StatefulSet Quantity))
      → Exec W (Unit {0})
  pub get_config_map : Text → Text → Exec W ConfigMap
  pub get_stateful_set : Text → Text → Exec W (StatefulSet Quantity)

abbrev pub empty_template : PodTemplate
empty_template = record {
  labels = [];
  annotations = [];
  topology_spread_constraints = [];
  pod_anti_affinity = [];
  security_context = none;
  init_containers = [];
  containers = [];
  volumes = [];
}

module _ {Key Quantity W : Type 0} (cluster : Cluster Key Quantity W) where
  -- The key `my.cnf` is written, and other keys are kept.
  unfoldable pub mutate_config_map : MySql → ConfigMap → Exec W ConfigMap
  mutate_config_map mysql cfg = do
    meta ← lift (cluster.set_controller_reference mysql cfg.meta)
    pure (record {
      meta = meta;
      contents =
          Assoc.put (codes "my.cnf")
            (render_mysql_config cluster.string_of [] mysql.spec.mysql_conf) cfg.contents;
    })

  unfoldable pub mutate_service : MySql → Service → Exec W Service
  mutate_service mysql svc = do
    meta ← lift (cluster.set_controller_reference mysql svc.meta)
    pure (record {
      meta = meta;
      selector = (codes "app", mysql.name) ∷ [];
      ports =
          record { name = codes "mysql"; port = mysql.spec.port; target_port = mysql.spec.port }
          ∷ [];
      cluster_ip = codes "None";
    })

module _ {Key Quantity Db W : Type 0} (cluster : Cluster Key Quantity W) where
  unfoldable pub reconcile_root_secret : Text → Exec (State Db W) (Unit {0})
  reconcile_root_secret name = do
    mysql ← get_mysql
    issue (wrote_object name) (
        cluster.create_or_update_secret (new_secret mysql name)
          (mutate_root_secret cluster.crypto cluster.set_controller_reference mysql))

  unfoldable pub reconcile_replication_secret : Text → Exec (State Db W) (Unit {0})
  reconcile_replication_secret name = do
    mysql ← get_mysql
    issue (wrote_object name) (
        cluster.create_or_update_secret (new_secret mysql name)
          (mutate_replication_secret cluster.crypto cluster.set_controller_reference mysql))

  unfoldable pub reconcile_config_map : Text → Exec (State Db W) (Unit {0})
  reconcile_config_map name = do
    mysql ← get_mysql
    issue (wrote_object name) (
        cluster.create_or_update_config_map
          (record { meta = named name mysql.namespace; contents = [] })
          (mutate_config_map cluster mysql))

  unfoldable pub reconcile_service : Text → Exec (State Db W) (Unit {0})
  reconcile_service name = do
    mysql ← get_mysql
    issue (wrote_object name) (
        cluster.create_or_update_service
          (record {
            meta = record (named name mysql.namespace) { labels = (codes "app", mysql.name) ∷ [] };
            selector = [];
            ports = [];
            cluster_ip = [];
          })
          (mutate_service cluster mysql))

  unfoldable pub reconcile_stateful_set :
      Text → Text → Text → Text → Text → Exec (State Db W) (Unit {0})
  reconcile_stateful_set name secret_name repl_secret_name cfg_name config_hash = do
    mysql ← get_mysql
    issue (wrote_object name) (
        cluster.create_or_update_stateful_set
          (record {
            meta = named name mysql.namespace;
            replicas = none;
            service_name = [];
            match_labels = [];
            template = empty_template;
            volume_claim_templates = [];
            ready_replicas = pos 0;
          })
          (λ sts. lift (
            mutate_stateful_set cluster.set_controller_reference cluster.must_parse mysql
              secret_name repl_secret_name cfg_name config_hash sts)))
