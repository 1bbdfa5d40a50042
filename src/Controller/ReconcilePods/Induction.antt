-- ===== src/Controller/ReconcilePods/Induction.antt =====
-- A rule for invariants of `reconcilePods`: one round and one write of the status keep them.
use yet_another_mysql_operat.Prelude.{Bool, true, false, List, [], ◌∷◌, if◌then◌else◌}
use yet_another_mysql_operat.Prelude.Result.{bind_keeps, pure, ◌>>=◌}
use yet_another_mysql_operat.Prelude.Text.{Text}
use yet_another_mysql_operat.Api.{MySqlStatus}
use yet_another_mysql_operat.Controller.Objects.{Pod}
use yet_another_mysql_operat.Controller.Names.{ResourceNames}
use yet_another_mysql_operat.Controller.Env.{Env, State, get_mysql, save_status, write_status}
use yet_another_mysql_operat.Controller.Retry.{IsRetry, retry_keeps}
use yet_another_mysql_operat.Controller.ReconcilePods.{
  Progress, reconcile_pod, pods_loop, reconcile_pods,
}

module _ {Db W : Type 0} (env : Env Db W) (law : IsRetry env) (P : State Db W → Type 0)
    (writes : (namespace name : Text) (desired : MySqlStatus) (t : State Db W)
      → P t
      → P (write_status env namespace name desired t).1) where
  pub save_status_keeps :
      (namespace name : Text) (s : State Db W) → P s → P (save_status env namespace name s).1
  unfolding save_status
  save_status_keeps namespace name s =
      retry_keeps env law (write_status env namespace name s.mysql.status) P
        (writes namespace name s.mysql.status) s

  module _ (repl_pass : Text) (names : ResourceNames) (root_pass : Text) (candidate : Text)
      (round : (pod : Pod) (p : Progress) (t : State Db W)
        → P t
        → P (reconcile_pod env repl_pass names root_pass candidate pod p t).1) where
    loop_keeps :
        (pods : List Pod) (p : Progress) (s : State Db W)
        → P s
        → P (pods_loop env repl_pass names root_pass candidate pods p s).1
    unfolding pods_loop
    loop_keeps [] p s h = h
    loop_keeps (pod ∷ pods) p s h =
        let first = round pod p s h in
        bind_keeps P (reconcile_pod env repl_pass names root_pass candidate pod p)
          (λ p'. pods_loop env repl_pass names root_pass candidate pods p') s first
          (λ p' _.
            loop_keeps pods p' (reconcile_pod env repl_pass names root_pass candidate pod p s).1
              first)

    save_if :
        (dirty : Bool) (t : State Db W)
        → P t
        → P
            ((do
              mysql ← get_mysql
              if dirty then save_status env mysql.namespace mysql.name else pure tt)
              t).1
    save_if true t h = save_status_keeps t.mysql.namespace t.mysql.name t h
    save_if false t h = h

    pub reconcile_pods_keeps :
        (pods : List Pod) (bootstrapped : Bool) (s : State Db W)
        → P s
        → P (reconcile_pods env repl_pass names root_pass candidate pods bootstrapped s).1
    unfolding reconcile_pods
    reconcile_pods_keeps pods bootstrapped s h =
        let start : Progress = record { bootstrapped = bootstrapped; status_dirty = false } in
        let after = loop_keeps pods start s h in
        bind_keeps P (pods_loop env repl_pass names root_pass candidate pods start)
          (λ p. do
            mysql ← get_mysql
            if p.status_dirty then save_status env mysql.namespace mysql.name else pure tt)
          s after (λ p _. save_if p.status_dirty _ after)
