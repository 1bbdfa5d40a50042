-- ===== src/Controller/Reconcile/Failure.antt =====
-- How a reconciliation fails and when it asks to be run again.
use yet_another_mysql_operat.Prelude.{◌≢◌, ◌≡◌, refl, ◌⊎◌, inr, Bool, true, false, some, arith}
use yet_another_mysql_operat.Prelude.Result.{Error, Result, ok, err}
use yet_another_mysql_operat.Prelude.Text.{Text, codes}
use yet_another_mysql_operat.Api.{MySql}
use yet_another_mysql_operat.Controller.Names.{ResourceNames, build_resource_names}
use yet_another_mysql_operat.Controller.Env.{Env, State, save_status}
use yet_another_mysql_operat.Controller.Trace.{status_writes, last_written}
use yet_another_mysql_operat.Controller.GroupReplication.{reconcile_group_replication}
use yet_another_mysql_operat.Controller.StatefulSet.{StatefulSet}
use yet_another_mysql_operat.Controller.Stages.{Cluster}
use yet_another_mysql_operat.Controller.Reconcile.{
  Outcome, finished, requeue, fail_status, observe, replicate_group, replicate, finish, start,
  reconcile,
}
use yet_another_mysql_operat.Controller.Reconcile.Rule.{stage_rule, reconcile_object_rule}

module _ {Key Quantity Db W : Type 0} (env : Env Db W) (cluster : Cluster Key Quantity W) where
  -- The status says that the object is degraded, and was written that way.
  abbrev pub IsReported : State Db W → Type 0
  IsReported s =
      (s.mysql.status.phase ≡ codes "Degraded") × (last_written s.trace ≡ some s.mysql.status)

  abbrev Reports : Result Outcome × State Db W → Type 0
  Reports x = (e : Error) → x.0 ≡ err e → IsReported x.1

  fail-Reports :
      (place : Text) (e : Error) (s : State Db W) → Reports (fail_status env cluster place e s)
  unfolding fail_status
  fail-Reports place e s f h = ground arith

  finished-Reports : (o : Outcome) (s : State Db W) → Reports (ok o, s)
  finished-Reports o s f h = cc

  group-Reports :
      (names : ResourceNames) (ready : Bool) (s : State Db W)
      → Reports (replicate_group env cluster names ready s)
  unfolding replicate_group
  group-Reports names true s =
      let t = (reconcile_group_replication env names s).1 in
      stage_rule env cluster Reports (reconcile_group_replication env names) _ _ s
        (λ e _. fail-Reports (codes "Reconciling Group Replication") e t)
        (λ _. finished-Reports finished t)
  group-Reports names false s = finished-Reports finished s

  replicate-Reports :
      (namespace name : Text) (names : ResourceNames) (r : Result (StatefulSet Quantity))
      (s : State Db W)
      → Reports (replicate env cluster namespace name names r s)
  unfolding replicate observe save_status
  replicate-Reports namespace name names (err e) s = finished-Reports finished s
  replicate-Reports namespace name names (ok sts) s = group-Reports names _ _

  start_reports :
      (namespace name : Text) (r : Result MySql) (s : State Db W) (e : Error)
      → (start env cluster namespace name r s).0 ≡ err e
      → (r ≡ err e) ⊎ IsReported (start env cluster namespace name r s).1
  unfolding start
  start_reports namespace name (err f) s e h = ground arith
  start_reports namespace name (ok mysql) s e h = inr (
      reconcile_object_rule env cluster (λ _. Unit) Reports (λ _ _ _. tt) (λ _ _ _ _. tt)
        (λ place f t _. fail-Reports place f t) (λ t _. finished-Reports requeue t) namespace name
        (build_resource_names mysql)
        (λ t _. unfold finish in replicate-Reports namespace name (build_resource_names mysql) _ _)
        (record s { mysql = mysql }) tt e h)

  -- A reconciliation that returns an error could not read the object and returns that error, or
  -- leaves the status Degraded in memory, and its last attempt to write a status was for that one.
  pub failure-IsReported :
      (namespace name : Text) (s : State Db W) (e : Error)
      → (reconcile env cluster namespace name s).0 ≡ err e
      → ((env.kube.get_mysql_object namespace name s.world).0 ≡ err e)
        ⊎ IsReported (reconcile env cluster namespace name s).1
  unfolding reconcile
  failure-IsReported namespace name s e h = start_reports namespace name _ _ e h

  abbrev WritesNone : State Db W → Result Outcome × State Db W → Type 0
  WritesNone s x = x.0 ≡ ok requeue → status_writes x.1.trace ≡ status_writes s.trace

  abbrev Settles : Result Outcome × State Db W → Type 0
  Settles x = x.0 ≢ ok requeue

  fail-Settles :
      (place : Text) (e : Error) (s : State Db W) → Settles (fail_status env cluster place e s)
  unfolding fail_status
  fail-Settles place e s h = ground arith

  finished-Settles : (s : State Db W) → Settles (ok finished, s)
  finished-Settles s h = ground arith

  group-Settles :
      (names : ResourceNames) (ready : Bool) (s : State Db W)
      → Settles (replicate_group env cluster names ready s)
  unfolding replicate_group
  group-Settles names true s =
      let t = (reconcile_group_replication env names s).1 in
      stage_rule env cluster Settles (reconcile_group_replication env names) _ _ s
        (λ e _. fail-Settles (codes "Reconciling Group Replication") e t) (λ _. finished-Settles t)
  group-Settles names false s = finished-Settles s

  replicate-Settles :
      (namespace name : Text) (names : ResourceNames) (r : Result (StatefulSet Quantity))
      (s : State Db W)
      → Settles (replicate env cluster namespace name names r s)
  unfolding replicate observe save_status
  replicate-Settles namespace name names (err e) s = finished-Settles s
  replicate-Settles namespace name names (ok sts) s = group-Settles names _ _

  finish-Settles :
      (namespace name : Text) (names : ResourceNames) (s : State Db W)
      → Settles (finish env cluster namespace name names s)
  unfolding finish
  finish-Settles namespace name names s = replicate-Settles namespace name names _ _

  start_requeues :
      (namespace name : Text) (r : Result MySql) (s : State Db W)
      → WritesNone s (start env cluster namespace name r s)
  unfolding start
  start_requeues namespace name (err f) s h = ground arith
  start_requeues namespace name (ok mysql) s h =
      reconcile_object_rule env cluster (λ t. status_writes t.trace ≡ status_writes s.trace)
        (WritesNone s) (λ _ _ k. k) (λ _ _ _ k. k)
        (λ place f t _ g. absurd (fail-Settles place f t g)) (λ t k _. k) namespace name
        (build_resource_names mysql)
        (λ t _ g. absurd (finish-Settles namespace name (build_resource_names mysql) _ g))
        (record s { mysql = mysql }) refl h

  -- A reconciliation that asks to be run again after a second has attempted to write no status.
  pub requeue_writes_no_status :
      (namespace name : Text) (s : State Db W)
      → (reconcile env cluster namespace name s).0 ≡ ok requeue
      → status_writes (reconcile env cluster namespace name s).1.trace ≡ status_writes s.trace
  unfolding reconcile
  requeue_writes_no_status namespace name s h = start_requeues namespace name _ _ h
