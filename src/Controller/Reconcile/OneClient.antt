-- ===== src/Controller/Reconcile/OneClient.antt =====
-- A whole reconciliation has at most one database client open at a time.
use yet_another_mysql_operat.Prelude.{Bool, true, false, ◌∷◌, arith}
use yet_another_mysql_operat.Prelude.Result.{Error, Result}
use yet_another_mysql_operat.Prelude.Text.{Text, codes}
use yet_another_mysql_operat.Controller.Names.{ResourceNames}
use yet_another_mysql_operat.Controller.Env.{Env, State, wrote_object}
use yet_another_mysql_operat.Controller.Retry.{IsRetry}
use yet_another_mysql_operat.Controller.ReconcilePods.Induction.{save_status_keeps}
use yet_another_mysql_operat.Controller.GroupReplication.{reconcile_group_replication}
use yet_another_mysql_operat.Controller.GroupReplication.OneClient.{
  NoneOpen, pass-NoneOpen, write-NoneOpen,
}
use yet_another_mysql_operat.Controller.Stages.{Cluster}
use yet_another_mysql_operat.Controller.Reconcile.{
  Outcome, observed, fail_status, replicate_group, reconcile,
}
use yet_another_mysql_operat.Controller.Reconcile.Rule.{stage_rule}
use yet_another_mysql_operat.Controller.Reconcile.Finish.{reconcile_rule}

module _ {Key Quantity Db W : Type 0} (env : Env Db W) (cluster : Cluster Key Quantity W)
    (law : IsRetry env) where
  abbrev Ends : Result Outcome × State Db W → Type 0
  Ends x = NoneOpen x.1

  wrote-NoneOpen :
      (made : Text) (w : W) (s : State Db W)
      → NoneOpen s
      → NoneOpen (record s { world = w; trace = wrote_object made ∷ s.trace })
  wrote-NoneOpen made w s h = ground (arith, h)

  fail-NoneOpen :
      (place : Text) (e : Error) (s : State Db W)
      → NoneOpen s
      → NoneOpen (fail_status env cluster place e s).1
  unfolding fail_status
  fail-NoneOpen place e s h = ground (arith, h)

  group-NoneOpen :
      (names : ResourceNames) (ready : Bool) (s : State Db W)
      → NoneOpen s
      → NoneOpen (replicate_group env cluster names ready s).1
  unfolding replicate_group
  group-NoneOpen names true s h =
      let t = (reconcile_group_replication env names s).1 in
      let after = pass-NoneOpen env law names s h in
      stage_rule env cluster Ends (reconcile_group_replication env names) _ _ s
        (λ e _. fail-NoneOpen (codes "Reconciling Group Replication") e t after) (λ _. after)
  group-NoneOpen names false s h = h

  -- Where RetryOnConflict keeps its law, and no client is open before: a reconciliation never has
  -- more than one database client open, and none behind it, whatever fails.
  pub reconcile-NoneOpen :
      (namespace name : Text) (s : State Db W)
      → NoneOpen s
      → NoneOpen (reconcile env cluster namespace name s).1
  reconcile-NoneOpen namespace name s h =
      reconcile_rule env cluster NoneOpen Ends (λ _ _ k. k) (λ _ k. k) namespace name
        (λ sts d t k.
          save_status_keeps env law NoneOpen (write-NoneOpen env) namespace name
            (record t {
              mysql = record t.mysql { status = observed env cluster sts d t.mysql.status };
            })
            k)
        (λ names at v sts t _ k. group-NoneOpen names _ t k) wrote-NoneOpen fail-NoneOpen (λ _ k. k)
        s (λ e _. (h, h)) (λ m _. h)
