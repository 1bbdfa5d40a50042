-- ===== src/Controller/Reconcile/Effects.antt =====
-- What a whole reconciliation does to the database servers and to its handles on them.
use yet_another_mysql_operat.Prelude.{◌≡◌, refl, Bool, true, false, ◌+◌, ◌≤◌, arith}
use yet_another_mysql_operat.Prelude.Result.{Error, Result, ok}
use yet_another_mysql_operat.Prelude.Text.{Text, codes}
use yet_another_mysql_operat.Prelude.Decimal.{ℤ, int_eq}
use yet_another_mysql_operat.Api.{MySql, MySqlStatus}
use yet_another_mysql_operat.Controller.Names.{ResourceNames}
use yet_another_mysql_operat.Controller.Env.{Env, State, save_status, write_status}
use yet_another_mysql_operat.Controller.Retry.{IsRetry}
use yet_another_mysql_operat.Controller.Trace.{bootstraps, clients_opened, changes}
use yet_another_mysql_operat.Controller.ReconcilePods.Clients.{Balanced}
use yet_another_mysql_operat.Controller.ReconcilePods.Induction.{save_status_keeps}
use yet_another_mysql_operat.Controller.ReconcilePods.Status.{IsConsistent}
use yet_another_mysql_operat.Controller.GroupReplication.{reconcile_group_replication}
use yet_another_mysql_operat.Controller.GroupReplication.Pass.{pass-Balanced}
use yet_another_mysql_operat.Controller.GroupReplication.Decisions.{
  ListsDistinct, pass_bootstraps_once,
}
use yet_another_mysql_operat.Controller.StatefulSet.{StatefulSet}
use yet_another_mysql_operat.Controller.Stages.{Cluster}
use yet_another_mysql_operat.Controller.Reconcile.{
  Outcome, or_int, fail_status, observed, replicate_group, reconcile,
}
use yet_another_mysql_operat.Controller.Reconcile.Rule.{stage_rule}
use yet_another_mysql_operat.Controller.Reconcile.Finish.{reconcile_rule}

module _ {Key Quantity Db W : Type 0} (env : Env Db W) (cluster : Cluster Key Quantity W)
    (law : IsRetry env) where
  fail-Balanced :
      (s : State Db W) (place : Text) (e : Error) (t : State Db W)
      → Balanced s t
      → Balanced s (fail_status env cluster place e t).1
  unfolding fail_status
  fail-Balanced s place e t h = ground (arith, h)

  write-Balanced :
      (s : State Db W) (namespace name : Text) (desired : MySqlStatus) (t : State Db W)
      → Balanced s t
      → Balanced s (write_status env namespace name desired t).1
  unfolding write_status
  write-Balanced s namespace name desired t h = ground (arith, h)

  group-Balanced :
      (s : State Db W) (names : ResourceNames) (ready : Bool) (t : State Db W)
      → Balanced s t
      → Balanced s (replicate_group env cluster names ready t).1
  unfolding replicate_group
  group-Balanced s names true t h =
      let u = (reconcile_group_replication env names t).1 in
      let after : Balanced s u = omega (arith, h, pass-Balanced env law names t) in
      stage_rule env cluster (λ x. Balanced s x.1) (reconcile_group_replication env names) _ _ t
        (λ e _. fail-Balanced s (codes "Reconciling Group Replication") e u after) (λ _. after)
  group-Balanced s names false t h = h

  -- Where RetryOnConflict keeps its law, a reconciliation closes as many database clients as it
  -- opens, whatever fails.
  pub reconcile-Balanced :
      (namespace name : Text) (s : State Db W)
      → Balanced s (reconcile env cluster namespace name s).1
  reconcile-Balanced namespace name s =
      reconcile_rule env cluster (Balanced s) (λ x. Balanced s x.1) (λ _ _ h. h) (λ _ h. h)
        namespace name
        (λ sts d t h.
          save_status_keeps env law (Balanced s) (λ ns n e u k. write-Balanced s ns n e u k)
            namespace name _ h)
        (λ names at v sts t _ h. group-Balanced s names _ t h) (λ _ _ _ h. h)
        (λ place f t h. fail-Balanced s place f t h) (λ _ h. h) s
        (λ e _. (omega arith, omega arith)) (λ m _. omega arith)

  -- The status of the object is consistent, and no bootstrap was attempted since `s`.
  abbrev Unstarted : State Db W → State Db W → Type 0
  Unstarted s t = IsConsistent t.mysql.status × (bootstraps t.trace ≡ bootstraps s.trace)

  abbrev OnceAtMost : State Db W → Result Outcome × State Db W → Type 0
  OnceAtMost s x = bootstraps x.1.trace ≤ bootstraps s.trace + 1

  write-Unstarted :
      (s : State Db W) (namespace name : Text) (desired : MySqlStatus) (t : State Db W)
      → Unstarted s t
      → Unstarted s (write_status env namespace name desired t).1
  unfolding write_status
  write-Unstarted s namespace name desired t h = ground (arith, h)

  fail_once :
      (s : State Db W) (place : Text) (e : Error) (t : State Db W)
      → bootstraps t.trace ≤ bootstraps s.trace + 1
      → OnceAtMost s (fail_status env cluster place e t)
  unfolding fail_status
  fail_once s place e t h = ground (arith, h)

  group_once :
      ListsDistinct env
      → (s : State Db W) (names : ResourceNames) (ready : Bool) (t : State Db W) → Unstarted s t
      → OnceAtMost s (replicate_group env cluster names ready t)
  unfolding replicate_group
  group_once distinct s names true t h =
      let u = (reconcile_group_replication env names t).1 in
      let after : bootstraps u.trace ≤ bootstraps s.trace + 1 =
        omega (arith, h.1, pass_bootstraps_once env law distinct names t h.0) in
      stage_rule env cluster (OnceAtMost s) (reconcile_group_replication env names) _ _ t
        (λ e _. fail_once s (codes "Reconciling Group Replication") e u after) (λ _. after)
  group_once distinct s names false t h = omega (arith, h.1)

  observe-Unstarted :
      (s : State Db W) (namespace name : Text) (sts : StatefulSet Quantity) (d : ℤ) (t : State Db W)
      → Unstarted s t
      → Unstarted s
          (save_status env namespace name (record t {
            mysql = record t.mysql { status = observed env cluster sts d t.mysql.status };
          })).1
  unfolding observed
  observe-Unstarted s namespace name sts d t h =
      save_status_keeps env law (Unstarted s) (λ ns n e u k. write-Unstarted s ns n e u k) namespace
        name _ h

  -- The objects on the API server have a consistent status.
  abbrev pub StoredConsistent : Type 0
  StoredConsistent =
      (namespace name : Text) (w : W) (m : MySql)
      → (env.kube.get_mysql_object namespace name w).0 ≡ ok m
      → IsConsistent m.status

  -- Where RetryOnConflict keeps its law, listed pods have different names, and the status in memory
  -- and every stored one is consistent, a whole reconciliation attempts at most one bootstrap,
  -- whatever the API server and the database servers answer.
  pub reconcile-bootstraps_once :
      ListsDistinct env
      → StoredConsistent
      → (namespace name : Text) (s : State Db W) → IsConsistent s.mysql.status
      → bootstraps (reconcile env cluster namespace name s).1.trace ≤ bootstraps s.trace + 1
  reconcile-bootstraps_once distinct stored namespace name s consistent =
      reconcile_rule env cluster (Unstarted s) (OnceAtMost s) (λ _ _ h. h)
        (λ _ h. omega (arith, h.1)) namespace name
        (λ sts d t h. observe-Unstarted s namespace name sts d t h)
        (λ names at v sts t _ h. group_once distinct s names _ t h) (λ _ _ _ h. h)
        (λ place f t h. fail_once s place f t (omega (arith, h.1))) (λ _ h. omega (arith, h.1)) s
        (λ e _. ((consistent, refl), omega arith))
        (λ m got. (stored namespace name s.world m got, refl))

  -- No call to a database server since `s`.
  abbrev pub LeavesServers : State Db W → State Db W → Type 0
  LeavesServers s t =
      (clients_opened t.trace ≡ clients_opened s.trace) × (changes t.trace ≡ changes s.trace)

  write-LeavesServers :
      (s : State Db W) (namespace name : Text) (desired : MySqlStatus) (t : State Db W)
      → LeavesServers s t
      → LeavesServers s (write_status env namespace name desired t).1
  unfolding write_status
  write-LeavesServers s namespace name desired t h = ground (arith, h)

  fail-LeavesServers :
      (s : State Db W) (place : Text) (e : Error) (t : State Db W)
      → LeavesServers s t
      → LeavesServers s (fail_status env cluster place e t).1
  unfolding fail_status
  fail-LeavesServers s place e t h = ground (arith, h)

  group_waits :
      (s : State Db W) (names : ResourceNames) (ready : Bool) (t : State Db W)
      → ready ≡ false
      → LeavesServers s t
      → LeavesServers s (replicate_group env cluster names ready t).1
  unfolding replicate_group
  group_waits s names true t r h = cc
  group_waits s names false t r h = h

  -- The StatefulSet never has all the replicas ready that it asks for.
  abbrev pub NeverReady : Type 0
  NeverReady =
      (namespace name : Text) (w : W) (sts : StatefulSet Quantity) (wanted : ℤ)
      → (cluster.get_stateful_set namespace name w).0 ≡ ok sts
      → int_eq sts.ready_replicas (or_int sts.replicas wanted) ≡ false

  -- Where RetryOnConflict keeps its law and each StatefulSet that is read has a number of ready
  -- replicas other than the one it asks for, a reconciliation opens no database client and changes
  -- no server.
  pub group_replication_waits :
      NeverReady
      → (namespace name : Text) (s : State Db W)
      → LeavesServers s (reconcile env cluster namespace name s).1
  group_replication_waits never namespace name s =
      reconcile_rule env cluster (LeavesServers s) (λ x. LeavesServers s x.1) (λ _ _ h. h)
        (λ _ h. h) namespace name
        (λ sts d t h.
          save_status_keeps env law (LeavesServers s)
            (λ ns n e u k. write-LeavesServers s ns n e u k) namespace name _ h)
        (λ names at v sts t got h.
          group_waits s names _ t (never at names.sts v sts t.mysql.spec.replicas got) h)
        (λ _ _ _ h. h) (λ place f t h. fail-LeavesServers s place f t h) (λ _ h. h) s
        (λ e _. ((refl, refl), (refl, refl))) (λ m _. (refl, refl))
