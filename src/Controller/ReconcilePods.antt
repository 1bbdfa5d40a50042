-- ===== src/Controller/ReconcilePods.antt =====
-- `reconcilePods` of internal/controller/group_replication.go.
pub mod Induction
pub mod Clients
pub mod Safety
pub mod Status
pub mod Bootstraps
use yet_another_mysql_operat.Prelude.{
  Bool, true, false, ◌&&◌, ◌||◌, not, List, [], ◌∷◌, ◌++◌, if◌then◌else◌,
}
use yet_another_mysql_operat.Prelude.Result.{Exec, pure, annotate, ◌>>=◌, ◌>>◌}
use yet_another_mysql_operat.Prelude.Text.{Text, codes, text_eq, is_empty}
use yet_another_mysql_operat.Prelude.Decimal.{ℤ, pos, int_eq}
use yet_another_mysql_operat.Controller.Objects.{Pod}
use yet_another_mysql_operat.Controller.Names.{ResourceNames}
use yet_another_mysql_operat.Controller.Pods.{is_contactable, build_dsn}
use yet_another_mysql_operat.Controller.Env
use yet_another_mysql_operat.Controller.Env.{
  Env, State, client_opened, user_ensured, ask, acquire, issue, get_mysql, set_status, release,
  guarded, save_status,
}

-- The three cases of the `switch`.
pub data Action : Type 0 where
  bootstrap rebootstrap join : Action

-- `bootstrapped`, `anyOnline`, `ForceBootstrap`, the pod's ordinal and name, the restart candidate.
unfoldable pub choose_action : Bool → Bool → Bool → ℤ → Text → Text → Action
choose_action bootstrapped any_online force ordinal pod_name candidate =
    if not bootstrapped && (not any_online && (force || int_eq ordinal (pos 0)))
    then bootstrap
    else if bootstrapped
        && (not (is_empty candidate) && (text_eq pod_name candidate && not any_online))
    then rebootstrap
    else join

-- The loop's variables: `bootstrapped` and `statusDirty`.
pub record Progress : Type 0 where
  pub bootstrapped : Bool
  pub status_dirty : Bool

module _ {Db W : Type 0} (env : Env Db W) (repl_pass : Text) where
  unfoldable pub perform : Action → Db → Text → Progress → Exec (State Db W) Progress
  perform bootstrap client pod_name p = do
    guarded env client (codes "bootstrap " ++ pod_name)
        (issue (Env.bootstrapped client) (env.gr.bootstrap client repl_pass))
    mysql ← get_mysql
    set_status
        (record mysql.status { group_replication_bootstrapped = true; restart_candidate = [] })
    pure (record { bootstrapped = true; status_dirty = true })
  perform rebootstrap client pod_name p = do
    guarded env client (codes "rebootstrap " ++ pod_name)
        (issue (Env.bootstrapped client) (env.gr.bootstrap client repl_pass))
    mysql ← get_mysql
    set_status (record mysql.status { restart_candidate = [] })
    pure (record p { status_dirty = true })
  perform join client pod_name p = do
    guarded env client (codes "join " ++ pod_name)
        (issue (Env.joined client) (env.gr.join client repl_pass))
    pure p

  module _ (names : ResourceNames) (root_pass : Text) (candidate : Text) where
    -- One round of the loop.
    unfoldable pub reconcile_pod : Pod → Progress → Exec (State Db W) Progress
    unfolding perform
    reconcile_pod pod p =
        if is_contactable pod
        then (do
          mysql ← get_mysql
          let target = build_dsn pod names mysql root_pass
          client ←
              annotate (codes "connect " ++ pod.name)
                (acquire client_opened (env.gr.new_gr_client target.1))
          online ←
              guarded env client (codes "self online " ++ pod.name)
                (ask (env.gr.self_online client))
          if online then (do release env client; pure p) else do
            guarded env client (codes "ensure replication user " ++ pod.name)
                (issue (user_ensured client) (env.gr.ensure_replication_user client repl_pass))
            any_online ←
                guarded env client (codes "any online " ++ pod.name)
                  (ask (env.gr.any_online_member client))
            p' ←
                perform
                  (choose_action p.bootstrapped any_online
                    mysql.spec.group_replication.force_bootstrap target.0 pod.name candidate)
                  client pod.name p
            release env client
            pure p')
        else pure p

    unfoldable pub pods_loop : List Pod → Progress → Exec (State Db W) Progress
    pods_loop [] p = pure p
    pods_loop (pod ∷ pods) p = do p' ← reconcile_pod pod p; pods_loop pods p'

    unfoldable pub reconcile_pods : List Pod → Bool → Exec (State Db W) (Unit {0})
    unfolding pods_loop
    reconcile_pods pods bootstrapped = do
      p ← pods_loop pods (record { bootstrapped = bootstrapped; status_dirty = false })
      mysql ← get_mysql
      if p.status_dirty then save_status env mysql.namespace mysql.name else pure tt
