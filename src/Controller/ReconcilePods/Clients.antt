-- ===== src/Controller/ReconcilePods/Clients.antt =====
-- Every client that `reconcilePods` opens is closed.
use yet_another_mysql_operat.Prelude.{◌+◌, ◌≡◌, Bool, false, List, [], ◌∷◌, arith}
use yet_another_mysql_operat.Prelude.Result.{bind_keeps}
use yet_another_mysql_operat.Prelude.Text.{Text}
use yet_another_mysql_operat.Api.{MySqlStatus}
use yet_another_mysql_operat.Controller.Objects.{Pod}
use yet_another_mysql_operat.Controller.Names.{ResourceNames}
use yet_another_mysql_operat.Controller.Env.{
  Env, State, release, guarded, save_status, write_status,
}
use yet_another_mysql_operat.Controller.Retry.{IsRetry, retry_keeps}
use yet_another_mysql_operat.Controller.Trace.{clients_opened, clients_closed}
use yet_another_mysql_operat.Controller.ReconcilePods.{
  Progress, reconcile_pod, pods_loop, reconcile_pods,
}

-- From `s` to `s'`, as many clients were closed as were opened.
abbrev pub Balanced : {Db W : Type 0} → State Db W → State Db W → Type 0
Balanced s s' =
    clients_opened s'.trace + clients_closed s.trace
    ≡ clients_closed s'.trace + clients_opened s.trace

module _ {Db W : Type 0} (env : Env Db W) (law : IsRetry env) where
  write_status-Balanced :
      (namespace name : Text) (desired : MySqlStatus) (a s : State Db W)
      → Balanced a s
      → Balanced a (write_status env namespace name desired s).1
  unfolding write_status
  write_status-Balanced namespace name desired a s h = ground arith

  pub save_status-Balanced :
      (namespace name : Text) (s : State Db W) → Balanced s (save_status env namespace name s).1
  unfolding save_status
  save_status-Balanced namespace name s =
      retry_keeps env law (write_status env namespace name s.mysql.status) (Balanced s)
        (write_status-Balanced namespace name s.mysql.status s) s (omega arith)

  module _ (repl_pass : Text) (names : ResourceNames) (root_pass : Text) (candidate : Text) where
    reconcile_pod-Balanced :
        (pod : Pod) (p : Progress) (s : State Db W)
        → Balanced s (reconcile_pod env repl_pass names root_pass candidate pod p s).1
    unfolding reconcile_pod guarded release
    reconcile_pod-Balanced pod p s = ground arith

    pods_loop-Balanced :
        (pods : List Pod) (p : Progress) (s : State Db W)
        → Balanced s (pods_loop env repl_pass names root_pass candidate pods p s).1
    unfolding pods_loop
    pods_loop-Balanced [] p s = omega arith
    pods_loop-Balanced (pod ∷ pods) p s =
        bind_keeps (Balanced s) (reconcile_pod env repl_pass names root_pass candidate pod p)
          (λ p'. pods_loop env repl_pass names root_pass candidate pods p') s
          (reconcile_pod-Balanced pod p s)
          (λ p' _.
            let t = (reconcile_pod env repl_pass names root_pass candidate pod p s).1 in
            omega (arith, reconcile_pod-Balanced pod p s, pods_loop-Balanced pods p' t))

    -- On success and on every error path, each client that was opened is closed.
    pub reconcile_pods-Balanced :
        (pods : List Pod) (bootstrapped : Bool) (s : State Db W)
        → Balanced s (reconcile_pods env repl_pass names root_pass candidate pods bootstrapped s).1
    unfolding reconcile_pods
    reconcile_pods-Balanced pods bootstrapped s =
        let start : Progress = record { bootstrapped = bootstrapped; status_dirty = false } in
        let t = (pods_loop env repl_pass names root_pass candidate pods start s).1 in
        ground (
          arith,
          pods_loop-Balanced pods start s,
          save_status-Balanced t.mysql.namespace t.mysql.name t,
        )
