-- ===== src/Controller/Reconcile.antt =====
-- `Reconcile`, `failStatus` and `handleReconcileError` of internal/controller/mysql_controller.go.
pub mod Rule
pub mod Finish
pub mod Failure
pub mod Effects
pub mod OneClient
pub mod Server
pub mod Deployed
pub mod Deploys
use yet_another_mysql_operat.Prelude.{ℕ, Bool, true, false, Option, none, some, ◌++◌, if◌then◌else◌}
use yet_another_mysql_operat.Prelude.Result.{
  Error, Result, ok, err, is_not_found, is_conflict, message, Exec, pure, raise, attempt, ◌>>=◌,
  ◌>>◌,
}
use yet_another_mysql_operat.Prelude.Text.{Text, codes}
use yet_another_mysql_operat.Prelude.Decimal.{ℤ, int_eq}
use yet_another_mysql_operat.Api.{MySql, MySqlStatus}
use yet_another_mysql_operat.Util.Hash.{hash_config_map_data}
use yet_another_mysql_operat.Controller.Objects.{ConfigMap}
use yet_another_mysql_operat.Controller.Names.{ResourceNames, build_resource_names}
use yet_another_mysql_operat.Controller.Env.{
  Env, State, wrote_status, ask, issue, get_mysql, set_status, save_status,
}
use yet_another_mysql_operat.Controller.Stages.{
  Cluster, reconcile_root_secret, reconcile_replication_secret, reconcile_config_map,
  reconcile_service, reconcile_stateful_set,
}
use yet_another_mysql_operat.Controller.StatefulSet.{StatefulSet}
use yet_another_mysql_operat.Controller.GroupReplication.{reconcile_group_replication}

-- `ctrl.Result`, with `RequeueAfter` in seconds.
pub record Outcome : Type 0 where
  pub requeue_after : ℕ

abbrev pub finished : Outcome
finished = record { requeue_after = 0 }

abbrev pub requeue : Outcome
requeue = record { requeue_after = 1 }

abbrev pub or_int : Option ℤ → ℤ → ℤ
or_int (some n) d = n
or_int none d = d

module _ {Key Quantity Db W : Type 0} (env : Env Db W) (cluster : Cluster Key Quantity W) where
  -- The status is written on the object as it was read, and the write's own error is dropped.
  unfoldable pub fail_status : Text → Error → Exec (State Db W) Outcome
  fail_status place e = do
    mysql ← get_mysql
    set_status (record mysql.status {
      phase = codes "Degraded";
      message = place ++ (codes ": " ++ message e);
    })
    failed ← get_mysql
    attempt (issue (wrote_status failed.status) (env.kube.update_status failed))
    raise e

  unfoldable pub handle_reconcile_error : Text → Error → Exec (State Db W) Outcome
  unfolding fail_status
  handle_reconcile_error resource e =
      if is_conflict e then pure requeue else fail_status (codes "Reconciling " ++ resource) e

  abbrev pub or_else_handle :
      Result (Unit {0})
      → (Error → Exec (State Db W) Outcome)
      → Exec (State Db W) Outcome
      → Exec (State Db W) Outcome
  or_else_handle (ok _) handle next = next
  or_else_handle (err e) handle next = handle e

  -- One stage: `if err := stage; err != nil { return handle(err) }`, and the rest.
  unfoldable pub stage :
      Exec (State Db W) (Unit {0})
      → (Error → Exec (State Db W) Outcome)
      → Exec (State Db W) Outcome
      → Exec (State Db W) Outcome
  stage m handle next = do r ← attempt m; or_else_handle r handle next

  unfoldable pub observed : StatefulSet Quantity → ℤ → MySqlStatus → MySqlStatus
  observed sts desired status =
      let settled = int_eq sts.ready_replicas desired in
      record status {
        current_replicas = desired;
        ready_replicas = sts.ready_replicas;
        phase = if settled then codes "Ready" else codes "Pending";
        message = if settled then codes "MySQL pod is ready" else codes "Waiting for pod readiness";
      }

  -- The status fields that are taken from the StatefulSet.
  unfoldable pub observe : StatefulSet Quantity → Exec (State Db W) (Unit {0})
  observe sts = do
    mysql ← get_mysql
    set_status (observed sts (or_int sts.replicas mysql.spec.replicas) mysql.status)

  unfoldable pub replicate_group : ResourceNames → Bool → Exec (State Db W) Outcome
  unfolding fail_status
  replicate_group names true =
      stage (reconcile_group_replication env names)
        (fail_status (codes "Reconciling Group Replication")) (pure finished)
  replicate_group names false = pure finished

  -- The branch behind the StatefulSet's Get; an error there is dropped.
  unfoldable pub replicate :
      Text → Text → ResourceNames → Result (StatefulSet Quantity) → Exec (State Db W) Outcome
  unfolding fail_status
  replicate namespace name names (err e) = pure finished
  replicate namespace name names (ok sts) = do
    observe sts
    save_status env namespace name
    mysql ← get_mysql
    replicate_group names (int_eq sts.ready_replicas (or_int sts.replicas mysql.spec.replicas))

  unfoldable pub finish : Text → Text → ResourceNames → Exec (State Db W) Outcome
  unfolding replicate
  finish namespace name names = do
    mysql ← get_mysql
    sts ← attempt (ask (cluster.get_stateful_set mysql.namespace names.sts))
    replicate namespace name names sts

  -- The Service and the StatefulSet, once the hash of the configuration is known.
  unfoldable pub deploy : Text → Text → ResourceNames → Text → Exec (State Db W) Outcome
  deploy namespace name names cfg_hash =
      stage (reconcile_service cluster names.service) (handle_reconcile_error (codes "Service")) (
        stage
          (reconcile_stateful_set cluster names.sts names.secret names.repl_sec names.config
            cfg_hash)
          (λ e.
            if is_conflict e then pure requeue else fail_status (codes "Reconciling StatefulSet") e)
          (finish namespace name names))

  unfoldable pub with_config :
      Text → Text → ResourceNames → Result ConfigMap → Exec (State Db W) Outcome
  with_config namespace name names (err e) =
      if is_not_found e then pure requeue else fail_status (codes "Loading ConfigMap") e
  with_config namespace name names (ok cfg) =
      deploy namespace name names (hash_config_map_data cluster.sha256_hex cfg.contents)

  unfoldable pub load_config : Text → Text → ResourceNames → Exec (State Db W) Outcome
  unfolding with_config
  load_config namespace name names = do
    mysql ← get_mysql
    cfg ← attempt (ask (cluster.get_config_map mysql.namespace names.config))
    with_config namespace name names cfg

  unfoldable pub reconcile_object : Text → Text → ResourceNames → Exec (State Db W) Outcome
  reconcile_object namespace name names =
      stage (reconcile_root_secret cluster names.secret) (handle_reconcile_error (codes "Secret")) (
        stage (reconcile_replication_secret cluster names.repl_sec)
          (handle_reconcile_error (codes "Replication Secret"))
          (stage (reconcile_config_map cluster names.config)
            (handle_reconcile_error (codes "ConfigMap")) (load_config namespace name names)))

  unfoldable pub start : Text → Text → Result MySql → Exec (State Db W) Outcome
  start namespace name (err e) = if is_not_found e then pure finished else raise e
  start namespace name (ok mysql) =
      λ s. reconcile_object namespace name (build_resource_names mysql) (record s { mysql = mysql })

  -- The request is a namespace and a name.
  unfoldable pub reconcile : Text → Text → Exec (State Db W) Outcome
  unfolding start
  reconcile namespace name = do
    got ← attempt (ask (env.kube.get_mysql_object namespace name))
    start namespace name got
