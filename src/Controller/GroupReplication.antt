-- ===== src/Controller/GroupReplication.antt =====
-- `secretValue`, `loadSecretsAndPods` and `reconcileGroupReplication` of
-- internal/controller/group_replication.go.
pub mod Handles
pub mod Pass
pub mod Decisions
pub mod Rule
pub mod OneClient
pub mod SqlHandles
use yet_another_mysql_operat.Prelude.{
  Bool, true, false, ◌&&◌, not, List, [], ◌∷◌, ◌++◌, Option, none, some, if◌then◌else◌,
}
use yet_another_mysql_operat.Prelude.Result.{
  plain, Exec, pure, raise, lift, annotate, attempt, ◌>>=◌, ◌>>◌,
}
use yet_another_mysql_operat.Prelude.Text.{Text, codes, is_empty}
use yet_another_mysql_operat.Prelude.Assoc
use yet_another_mysql_operat.GrClient.Candidate.{GtidInfo}
use yet_another_mysql_operat.Util.{root_user_env, replication_user_env}
use yet_another_mysql_operat.Controller.Objects.{Pod}
use yet_another_mysql_operat.Controller.Names.{ResourceNames}
use yet_another_mysql_operat.Controller.Env.{
  Env, State, compare_closed, picked, ask, issue, get_mysql, set_status, save_status,
}
use yet_another_mysql_operat.Controller.Collect.{Collected, collect_group_info}
use yet_another_mysql_operat.Controller.ReconcilePods.{reconcile_pods}

-- `rootPass`, `replPass` and `pods`
pub record Loaded : Type 0 where
  pub root_pass : Text
  pub repl_pass : Text
  pub pods : List Pod

abbrev pub is_nil : {A : Type 0} → List A → Bool
is_nil [] = true
is_nil (x ∷ xs) = false

module _ {Db W : Type 0} (env : Env Db W) where
  unfoldable pub value_or_missing : Text → Text → Option Text → Exec (State Db W) Text
  value_or_missing name key (some value) = pure value
  value_or_missing name key none =
      raise (plain (codes "key " ++ (key ++ (codes " missing in secret " ++ name))))

  -- `secretValue`
  unfoldable pub secret_value : Text → Text → Text → Exec (State Db W) Text
  unfolding value_or_missing
  secret_value namespace name key = do
    secret ← ask (env.kube.get_secret namespace name)
    value_or_missing name key (Assoc.get key secret.contents)

  unfoldable pub load_secrets_and_pods : ResourceNames → Exec (State Db W) Loaded
  unfolding secret_value
  load_secrets_and_pods names = do
    mysql ← get_mysql
    root_pass ←
        annotate (codes "load root password")
          (secret_value mysql.namespace names.secret root_user_env)
    repl_pass ←
        annotate (codes "load replication password")
          (secret_value mysql.namespace names.repl_sec replication_user_env)
    pods ← annotate (codes "list pods") (ask (env.kube.list_pods mysql.namespace mysql.name))
    pure (record { root_pass = root_pass; repl_pass = repl_pass; pods = pods })

  -- `PickRestartCandidate(ctx, cmpDB, infos)`; a nil handle would be a panic.
  unfoldable pub pick_with : Option Db → List GtidInfo → Exec (State Db W) Text
  pick_with none infos = raise (plain (codes "nil handle"))
  pick_with (some db) infos = issue (picked infos) (env.gr.pick_restart_candidate db infos)

  unfoldable pub save_candidate : Text → Exec (State Db W) (Unit {0})
  save_candidate candidate = do
    mysql ← get_mysql
    set_status (record mysql.status { restart_candidate = candidate })
    save_status env mysql.namespace mysql.name

  -- The branch that records a restart candidate and leaves the rest to the next reconciliation.
  unfoldable pub record_candidate : Collected Db → Exec (State Db W) (Unit {0})
  unfolding pick_with
  record_candidate collected = do
    candidate ←
        annotate (codes "pick restart candidate") (pick_with collected.cmp_db collected.infos)
    save_candidate candidate

  -- The function behind `collectGroupInfo`, its deferred close apart. `bootstrapped` and `candidate`
  -- were read from the status at its start.
  unfoldable pub act_on :
      ResourceNames → Loaded → Bool → Text → Collected Db → Exec (State Db W) (Unit {0})
  act_on names loaded bootstrapped candidate collected =
      if bootstrapped
        && (not collected.any_online && (is_empty candidate && not (is_nil collected.infos)))
      then record_candidate collected
      else reconcile_pods env loaded.repl_pass names loaded.root_pass candidate loaded.pods
          bootstrapped

  -- The deferred `cmpDB.Close()`
  unfoldable pub close_compare : Option Db → Exec (State Db W) (Unit {0})
  close_compare none = pure tt
  close_compare (some db) = do
    attempt (issue (compare_closed db) (env.gr.close_compare db))
    pure tt

  unfoldable pub with_collected :
      ResourceNames → Loaded → Bool → Text → Collected Db → Exec (State Db W) (Unit {0})
  unfolding close_compare
  with_collected names loaded bootstrapped candidate collected = do
    r ← attempt (act_on names loaded bootstrapped candidate collected)
    close_compare collected.cmp_db
    lift r

  -- `reconcileGroupReplication`, behind `loadSecretsAndPods`
  unfoldable pub collect_and_act : ResourceNames → Loaded → Exec (State Db W) (Unit {0})
  collect_and_act names loaded = do
    mysql ← get_mysql
    let bootstrapped = mysql.status.group_replication_bootstrapped
    let candidate = mysql.status.restart_candidate
    collected ← collect_group_info env names loaded.root_pass bootstrapped candidate loaded.pods
    with_collected names loaded bootstrapped candidate collected

  unfoldable pub reconcile_group_replication : ResourceNames → Exec (State Db W) (Unit {0})
  reconcile_group_replication names = do
    loaded ← load_secrets_and_pods names
    collect_and_act names loaded
