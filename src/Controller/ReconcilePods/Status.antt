-- ===== src/Controller/ReconcilePods/Status.antt =====
-- What `reconcilePods` does to the status, in memory and on the API server.
use yet_another_mysql_operat.Prelude.{
  ◌≡◌, ◌⊎◌, inl, inr, refl, ◌∙◌, Bool, true, false, ◌||◌, List, [], ◌∷◌, some, arith,
}
use yet_another_mysql_operat.Prelude.Result.{Error, ok, err, Result-cases, bind_keeps, Exec}
use yet_another_mysql_operat.Prelude.Text.{Text, is_empty}
use yet_another_mysql_operat.Api.{MySql, MySqlStatus}
use yet_another_mysql_operat.Controller.Objects.{Pod}
use yet_another_mysql_operat.Controller.Names.{ResourceNames}
use yet_another_mysql_operat.Controller.Env.{
  Env, State, release, guarded, save_status, write_status,
}
use yet_another_mysql_operat.Controller.Retry.{IsRetry, retry_keeps, retry_ends}
use yet_another_mysql_operat.Controller.Trace.{status_writes, last_written}
use yet_another_mysql_operat.Controller.ReconcilePods.{
  Progress, reconcile_pod, pods_loop, reconcile_pods,
}

-- A restart candidate is recorded only for a group that has been bootstrapped.
abbrev pub IsConsistent : MySqlStatus → Type 0
IsConsistent status =
    (is_empty status.restart_candidate || status.group_replication_bootstrapped) ≡ true

-- The status may change; it stays consistent, a bootstrapped group stays recorded as one, and the
-- rest of the object is as it was.
pub record Advances (m m' : MySql) : Type 0 where
  pub name : m'.name ≡ m.name
  pub namespace : m'.namespace ≡ m.namespace
  pub spec : m'.spec ≡ m.spec
  pub consistent : IsConsistent m.status → IsConsistent m'.status
  pub monotone :
      m.status.group_replication_bootstrapped ≡ true
      → m'.status.group_replication_bootstrapped ≡ true

Advances-refl : (m : MySql) → Advances m m
Advances-refl m = record {
  name = refl;
  namespace = refl;
  spec = refl;
  consistent = λ h. h;
  monotone = λ h. h;
}

Advances-trans : {m n o : MySql} → Advances m n → Advances n o → Advances m o
Advances-trans a b = record {
  name = b.name ∙ a.name;
  namespace = b.namespace ∙ a.namespace;
  spec = b.spec ∙ a.spec;
  consistent = λ h. b.consistent (a.consistent h);
  monotone = λ h. b.monotone (a.monotone h);
}

module _ {Db W : Type 0} (env : Env Db W) where
  -- The object can be read from the API server.
  abbrev pub Readable : Type 0
  Readable =
      (namespace name : Text) (w : W)
      → (m : MySql) × ((env.kube.get_mysql_object namespace name w).0 ≡ ok m)

module _ {Db W : Type 0} (env : Env Db W) (law : IsRetry env) where
  write_status_keeps_mysql :
      (namespace name : Text) (desired : MySqlStatus) (m : MySql) (s : State Db W)
      → s.mysql ≡ m
      → (write_status env namespace name desired s).1.mysql ≡ m
  unfolding write_status
  write_status_keeps_mysql namespace name desired m s h = ground arith

  pub save_status_keeps_mysql :
      (namespace name : Text) (s : State Db W)
      → (save_status env namespace name s).1.mysql ≡ s.mysql
  unfolding save_status
  save_status_keeps_mysql namespace name s =
      retry_keeps env law (write_status env namespace name s.mysql.status) (λ t. t.mysql ≡ s.mysql)
        (write_status_keeps_mysql namespace name s.mysql.status s.mysql) s refl

  write_status_writes :
      Readable env
      → (namespace name : Text) (desired : MySqlStatus) (s : State Db W)
      → last_written (write_status env namespace name desired s).1.trace ≡ some desired
  unfolding write_status
  write_status_writes readable namespace name desired s =
      ground (arith, (readable namespace name s.world).1)

  -- Saving attempts to write the status of the shared object.
  pub save_status_writes :
      Readable env
      → (namespace name : Text) (s : State Db W)
      → last_written (save_status env namespace name s).1.trace ≡ some s.mysql.status
  unfolding save_status
  save_status_writes readable namespace name s =
      retry_ends env law (write_status env namespace name s.mysql.status)
        (λ t. last_written t.trace ≡ some s.mysql.status)
        (write_status_writes readable namespace name s.mysql.status) s

  module _ (repl_pass : Text) (names : ResourceNames) (root_pass : Text) (candidate : Text) where
    abbrev visit : Pod → Progress → Exec (State Db W) Progress
    visit = reconcile_pod env repl_pass names root_pass candidate

    abbrev loop : List Pod → Progress → Exec (State Db W) Progress
    loop = pods_loop env repl_pass names root_pass candidate

    visit-Advances :
        (pod : Pod) (p : Progress) (s : State Db W) → Advances s.mysql (visit pod p s).1.mysql
    unfolding reconcile_pod guarded release
    visit-Advances pod p s = ground arith

    loop-Advances :
        (pods : List Pod) (p : Progress) (s : State Db W) → Advances s.mysql (loop pods p s).1.mysql
    unfolding pods_loop
    loop-Advances [] p s = Advances-refl s.mysql
    loop-Advances (pod ∷ pods) p s =
        bind_keeps (λ t. Advances s.mysql t.mysql) (visit pod p) (λ p'. loop pods p') s
          (visit-Advances pod p s)
          (λ p' _.
            Advances-trans (visit-Advances pod p s) (loop-Advances pods p' (visit pod p s).1))

    visit_writes_none :
        (pod : Pod) (p : Progress) (s : State Db W)
        → status_writes (visit pod p s).1.trace ≡ status_writes s.trace
    unfolding reconcile_pod guarded release
    visit_writes_none pod p s = ground arith

    loop_writes_none :
        (pods : List Pod) (p : Progress) (s : State Db W)
        → status_writes (loop pods p s).1.trace ≡ status_writes s.trace
    unfolding pods_loop
    loop_writes_none [] p s = refl
    loop_writes_none (pod ∷ pods) p s =
        bind_keeps (λ t. status_writes t.trace ≡ status_writes s.trace) (visit pod p)
          (λ p'. loop pods p') s (visit_writes_none pod p s)
          (λ p' _. loop_writes_none pods p' (visit pod p s).1 ∙ visit_writes_none pod p s)

    visit_dirty :
        (pod : Pod) (p p' : Progress) (s : State Db W)
        → (visit pod p s).0 ≡ ok p'
        → p'.status_dirty ≡ false
        → (p.status_dirty ≡ false) × ((visit pod p s).1.mysql ≡ s.mysql)
    unfolding reconcile_pod guarded release
    visit_dirty pod p p' s e d = ground arith

    loop_step :
        (pod : Pod) (pods : List Pod) (p p' : Progress) (s : State Db W)
        → (visit pod p s).0 ≡ ok p'
        → loop (pod ∷ pods) p s ≡ loop pods p' (visit pod p s).1
    unfolding pods_loop
    loop_step pod pods p p' s e = ground arith

    loop_fails :
        (pod : Pod) (pods : List Pod) (p : Progress) (s : State Db W) (e : Error)
        → (visit pod p s).0 ≡ err e
        → (loop (pod ∷ pods) p s).0 ≡ err e
    unfolding pods_loop
    loop_fails pod pods p s e h = ground arith

    -- As long as the status is not marked as changed, the object is as it was.
    loop_dirty :
        (pods : List Pod) (p p' : Progress) (s : State Db W)
        → (loop pods p s).0 ≡ ok p'
        → p'.status_dirty ≡ false
        → (p.status_dirty ≡ false) × ((loop pods p s).1.mysql ≡ s.mysql)
    loop_dirty [] p p' s e d = unfold pods_loop in ground arith
    loop_dirty (pod ∷ pods) p p' s e d = elim (Result-cases (visit pod p s).0) [
      | inl (q, h) ↦ ground (
        arith,
        loop_step pod pods p q s h,
        loop_dirty pods q p' (visit pod p s).1,
        visit_dirty pod p q s h,
      )
      | inr (f, h) ↦ cc (loop_fails pod pods p s f h)
    ]

    -- Where RetryOnConflict keeps its law, a pass over the pods keeps name, namespace and spec of
    -- the shared object on every path, keeps a consistent status consistent, and keeps a
    -- bootstrapped group recorded as one.
    pub reconcile_pods-Advances :
        (pods : List Pod) (bootstrapped : Bool) (s : State Db W)
        → Advances s.mysql
            (reconcile_pods env repl_pass names root_pass candidate pods bootstrapped s).1.mysql
    unfolding reconcile_pods
    reconcile_pods-Advances pods bootstrapped s =
        let start : Progress = record { bootstrapped = bootstrapped; status_dirty = false } in
        let t = (loop pods start s).1 in
        let a = loop-Advances pods start s in
        ground (
          arith,
          a.name,
          a.namespace,
          a.spec,
          a.consistent,
          a.monotone,
          save_status_keeps_mysql t.mysql.namespace t.mysql.name t,
        )

    -- Where RetryOnConflict keeps its law and the object can be read, a pass over the pods that
    -- succeeds leaves the shared object as it was, or its last attempt to write a status was for
    -- the one that it leaves.
    pub reconcile_pods_saves :
        Readable env
        → (pods : List Pod) (bootstrapped : Bool) (s : State Db W)
        → (reconcile_pods env repl_pass names root_pass candidate pods bootstrapped s).0 ≡ ok tt
        → let s' = (reconcile_pods env repl_pass names root_pass candidate pods bootstrapped s).1 in
          (s'.mysql ≡ s.mysql) ⊎ (last_written s'.trace ≡ some s'.mysql.status)
    unfolding reconcile_pods
    reconcile_pods_saves readable pods bootstrapped s h =
        let start : Progress = record { bootstrapped = bootstrapped; status_dirty = false } in
        let t = (loop pods start s).1 in
        elim (Result-cases (loop pods start s).0) [
          | inl (p', e) ↦ ground (
            arith,
            loop_dirty pods start p' s e,
            save_status_keeps_mysql t.mysql.namespace t.mysql.name t,
            save_status_writes readable t.mysql.namespace t.mysql.name t,
          )
          | inr (e, f) ↦ ground arith
        ]

    -- A pass over the pods that fails has attempted to write no status, also where it had
    -- bootstrapped the group before the pod that failed.
    pub failed_pass_saves_nothing :
        (pods : List Pod) (bootstrapped : Bool) (s : State Db W) (e : Error)
        → (reconcile_pods env repl_pass names root_pass candidate pods bootstrapped s).0 ≡ err e
        → status_writes
            (reconcile_pods env repl_pass names root_pass candidate pods bootstrapped s).1.trace
          ≡ status_writes s.trace
    unfolding reconcile_pods save_status
    failed_pass_saves_nothing pods bootstrapped s e h =
        let start : Progress = record { bootstrapped = bootstrapped; status_dirty = false } in
        ground (arith, loop_writes_none pods start s)
