-- ===== src/Controller/Reconcile/Finish.antt =====
-- A rule for what holds at the end of `Reconcile`, for its branch behind the StatefulSet's Get and for
-- its start.
use yet_another_mysql_operat.Prelude.{◌≡◌, refl, ◌∷◌}
use yet_another_mysql_operat.Prelude.Result.{Error, Result, ok, err, is_not_found}
use yet_another_mysql_operat.Prelude.Text.{Text}
use yet_another_mysql_operat.Prelude.Decimal.{ℤ, int_eq}
use yet_another_mysql_operat.Api.{MySql}
use yet_another_mysql_operat.Controller.Names.{ResourceNames, build_resource_names}
use yet_another_mysql_operat.Controller.Env.{Env, State, wrote_object, save_status}
use yet_another_mysql_operat.Controller.StatefulSet.{StatefulSet}
use yet_another_mysql_operat.Controller.Stages.{Cluster}
use yet_another_mysql_operat.Controller.Reconcile.{
  Outcome, finished, requeue, or_int, fail_status, observed, observe, replicate_group, replicate,
  finish, start, reconcile,
}
use yet_another_mysql_operat.Controller.Reconcile.Rule.{choose_rule, reconcile_object_rule}

module _ {Key Quantity Db W : Type 0} (env : Env Db W) (cluster : Cluster Key Quantity W)
    (P : State Db W → Type 0) (Q : Result Outcome × State Db W → Type 0)
    (asked : (w : W) (s : State Db W) → P s → P (record s { world = w }))
    (ends : (s : State Db W) → P s → Q (ok finished, s)) (namespace name : Text) where
  -- What the status becomes in memory and how it is saved.
  abbrev pub Observes : Type 0
  Observes =
      (sts : StatefulSet Quantity) (desired : ℤ) (s : State Db W)
      → P s
      → P
          (save_status env namespace name (record s {
            mysql = record s.mysql { status = observed env cluster sts desired s.mysql.status };
          })).1

  -- Group replication, for a StatefulSet that was read.
  abbrev pub Groups : Type 0
  Groups =
      (names : ResourceNames) (at : Text) (v : W) (sts : StatefulSet Quantity) (s : State Db W)
      → (cluster.get_stateful_set at names.sts v).0 ≡ ok sts
      → P s
      → Q (
          replicate_group env cluster names
            (int_eq sts.ready_replicas (or_int sts.replicas s.mysql.spec.replicas)) s)

  module _ (observes : Observes) (groups : Groups) where
    replicate_rule :
        (names : ResourceNames) (at : Text) (v : W) (r : Result (StatefulSet Quantity))
        (s : State Db W)
        → (cluster.get_stateful_set at names.sts v).0 ≡ r
        → P s
        → Q (replicate env cluster namespace name names r s)
    unfolding replicate observe save_status
    replicate_rule names at v (err e) s got h = ends s h
    replicate_rule names at v (ok sts) s got h =
        let desired = or_int sts.replicas s.mysql.spec.replicas in
        groups names at v sts
          (save_status env namespace name (record s {
            mysql = record s.mysql { status = observed env cluster sts desired s.mysql.status };
          })).1
          got (observes sts desired s h)

    finish_rule :
        (names : ResourceNames) (s : State Db W)
        → P s
        → Q (finish env cluster namespace name names s)
    unfolding finish
    finish_rule names s h =
        let got = cluster.get_stateful_set s.mysql.namespace names.sts s.world in
        replicate_rule names s.mysql.namespace s.world got.0 (record s { world = got.1 }) refl
          (asked got.1 s h)

    module _
        (wrote : (made : Text) (w : W) (s : State Db W)
          → P s
          → P (record s { world = w; trace = wrote_object made ∷ s.trace }))
        (fails : (place : Text) (e : Error) (s : State Db W)
          → P s
          → Q (fail_status env cluster place e s))
        (requeues : (s : State Db W) → P s → Q (ok requeue, s)) where
      start_rule :
          (r : Result MySql) (s : State Db W)
          → ((e : Error) → r ≡ err e → P s × Q (err e, s))
          → ((mysql : MySql) → r ≡ ok mysql → P (record s { mysql = mysql }))
          → Q (start env cluster namespace name r s)
      unfolding start
      start_rule (err e) s missing loaded =
          choose_rule env cluster Q (is_not_found e) _ _ s (ends s (missing e refl).0)
            (missing e refl).1
      start_rule (ok mysql) s missing loaded =
          reconcile_object_rule env cluster P Q asked wrote fails requeues namespace name
            (build_resource_names mysql) (finish_rule (build_resource_names mysql))
            (record s { mysql = mysql }) (loaded mysql refl)

      pub reconcile_rule :
          (s : State Db W)
          → let got = env.kube.get_mysql_object namespace name s.world in
            ((e : Error)
              → got.0 ≡ err e
              → P (record s { world = got.1 }) × Q (err e, record s { world = got.1 }))
            → ((mysql : MySql) → got.0 ≡ ok mysql → P (record s { world = got.1; mysql = mysql }))
            → Q (reconcile env cluster namespace name s)
      unfolding reconcile
      reconcile_rule s =
          let got = env.kube.get_mysql_object namespace name s.world in
          start_rule got.0 (record s { world = got.1 })
