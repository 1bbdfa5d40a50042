-- ===== src/Controller/ReconcilePods/Bootstraps.antt =====
-- How often, and when, `reconcilePods` bootstraps a group.
use yet_another_mysql_operat.Prelude.{
  ℕ, ◌+◌, ◌≤◌, ◌≡◌, ◌⊎◌, inl, inr, Bool, true, false, ◌||◌, not, List, [], ◌∷◌, map, arith, All,
  Bool-cases,
}
use yet_another_mysql_operat.Prelude.Result.{ok, bind_keeps, Exec}
use yet_another_mysql_operat.Prelude.Text.{Text, text_eq, text_eq_iff, is_empty}
use yet_another_mysql_operat.Prelude.Assoc.{elem}
use yet_another_mysql_operat.Prelude.Sort.Laws.{NoRepeat}
use yet_another_mysql_operat.Api.{MySqlStatus}
use yet_another_mysql_operat.Controller.Objects.{Pod}
use yet_another_mysql_operat.Controller.Names.{ResourceNames}
use yet_another_mysql_operat.Controller.Env.{
  Env, State, release, guarded, save_status, write_status,
}
use yet_another_mysql_operat.Controller.Retry.{IsRetry, retry_keeps}
use yet_another_mysql_operat.Controller.Trace.{bootstraps}
use yet_another_mysql_operat.Controller.ReconcilePods.{
  Progress, choose_action, reconcile_pod, pods_loop, reconcile_pods,
}

abbrev pub name_of : Pod → Text
name_of pod = pod.name

module _ {Db W : Type 0} (env : Env Db W) (repl_pass : Text) (names : ResourceNames)
    (root_pass : Text) (candidate : Text) where
  abbrev visit : Pod → Progress → Exec (State Db W) Progress
  visit = reconcile_pod env repl_pass names root_pass candidate

  -- The pod is not the restart candidate.
  abbrev IsOther : Pod → Type 0
  IsOther pod = (is_empty candidate || not (text_eq pod.name candidate)) ≡ true

  visit_once :
      (pod : Pod) (p : Progress) (s : State Db W)
      → bootstraps (visit pod p s).1.trace ≤ bootstraps s.trace + 1
  unfolding reconcile_pod guarded release
  visit_once pod p s = ground arith

  visit_quiet :
      (pod : Pod) (p : Progress) (s : State Db W)
      → p.bootstrapped ≡ true
      → IsOther pod
      → bootstraps (visit pod p s).1.trace ≡ bootstraps s.trace
  unfolding reconcile_pod guarded release choose_action
  visit_quiet pod p s h o = ground arith

  visit_stays :
      (pod : Pod) (p p' : Progress) (s : State Db W)
      → p.bootstrapped ≡ true
      → (visit pod p s).0 ≡ ok p'
      → p'.bootstrapped ≡ true
  unfolding reconcile_pod guarded release
  visit_stays pod p p' s h e = ground arith

  visit_counts :
      (pod : Pod) (p p' : Progress) (s : State Db W)
      → (visit pod p s).0 ≡ ok p'
      → (bootstraps (visit pod p s).1.trace ≡ bootstraps s.trace)
        ⊎ (p'.bootstrapped ≡ true)
        ⊎ (p.bootstrapped ≡ true)
  unfolding reconcile_pod guarded release choose_action
  visit_counts pod p p' s e = ground arith

  abbrev loop : List Pod → Progress → Exec (State Db W) Progress
  loop = pods_loop env repl_pass names root_pass candidate

  -- A bound on the bootstraps of a first pod and one on those of the others add up.
  loop_adds :
      (pod : Pod) (pods : List Pod) (p : Progress) (s : State Db W) (n : ℕ)
      → bootstraps (visit pod p s).1.trace ≤ n
      → ((p' : Progress)
          → (visit pod p s).0 ≡ ok p'
          → bootstraps (loop pods p' (visit pod p s).1).1.trace ≤ n)
      → bootstraps (loop (pod ∷ pods) p s).1.trace ≤ n
  unfolding pods_loop
  loop_adds pod pods p s n h k =
      bind_keeps (λ t. bootstraps t.trace ≤ n) (visit pod p) (λ p'. loop pods p') s h k

  loop_quiet :
      (pods : List Pod) (p : Progress) (s : State Db W)
      → p.bootstrapped ≡ true
      → All IsOther pods
      → bootstraps (loop pods p s).1.trace ≤ bootstraps s.trace
  loop_quiet [] p s h o = unfold pods_loop in omega arith
  loop_quiet (pod ∷ pods) p s h o =
      let q = visit_quiet pod p s h o.0 in
      loop_adds pod pods p s (bootstraps s.trace) (omega (arith, q)) (λ p' e.
        omega (arith, q, loop_quiet pods p' (visit pod p s).1 (visit_stays pod p p' s h e) o.1))

  All-IsOther : is_empty candidate ≡ true → (pods : List Pod) → All IsOther pods
  All-IsOther e [] = tt
  All-IsOther e (pod ∷ pods) = (ground arith, All-IsOther e pods)

  loop_fresh :
      (pods : List Pod) (p : Progress) (s : State Db W)
      → is_empty candidate ≡ true
      → bootstraps (loop pods p s).1.trace ≤ bootstraps s.trace + 1
  loop_fresh [] p s c = unfold pods_loop in omega arith
  loop_fresh (pod ∷ pods) p s c =
      loop_adds pod pods p s (bootstraps s.trace + 1) (visit_once pod p s) (λ p' e.
        let t = (visit pod p s).1 in
        elim (Bool-cases p'.bootstrapped) [
          | inl b ↦ omega (arith, visit_once pod p s, loop_quiet pods p' t b (All-IsOther c pods))
          | inr b ↦ elim (Bool-cases p.bootstrapped) [
            | inl a ↦ cc (visit_stays pod p p' s a e)
            | inr a ↦ ground (arith, visit_counts pod p p' s e, loop_fresh pods p' t c)
          ]
        ])

  others_behind :
      (name : Text) (pods : List Pod)
      → name ≡ candidate
      → elem name (map name_of pods) ≡ false
      → All IsOther pods
  unfolding elem
  others_behind name [] c h = tt
  others_behind name (pod ∷ pods) c h =
      (rw (← c) (ground arith), others_behind name pods c (ground arith))

  loop_candidate :
      (pods : List Pod) (p : Progress) (s : State Db W)
      → p.bootstrapped ≡ true
      → NoRepeat (map name_of pods)
      → bootstraps (loop pods p s).1.trace ≤ bootstraps s.trace + 1
  loop_candidate [] p s h d = unfold pods_loop in omega arith
  loop_candidate (pod ∷ pods) p s h d =
      loop_adds pod pods p s (bootstraps s.trace + 1) (visit_once pod p s) (λ p' e.
        let t = (visit pod p s).1 in
        let b = visit_stays pod p p' s h e in
        elim (Bool-cases (text_eq pod.name candidate)) [
          | inl at ↦ omega (
            arith,
            visit_once pod p s,
            loop_quiet pods p' t b
                (others_behind pod.name pods ((text_eq_iff pod.name candidate).0 at) d.0),
          )
          | inr at ↦
              omega (arith, visit_quiet pod p s h (ground arith), loop_candidate pods p' t b d.1)
        ])

  module _ (law : IsRetry env) where
    write_status_adds_none :
        (namespace name : Text) (desired : MySqlStatus) (n : ℕ) (s : State Db W)
        → bootstraps s.trace ≤ n
        → bootstraps (write_status env namespace name desired s).1.trace ≤ n
    unfolding write_status
    write_status_adds_none namespace name desired n s h = ground arith

    save_status_adds_none :
        (namespace name : Text) (s : State Db W)
        → bootstraps (save_status env namespace name s).1.trace ≤ bootstraps s.trace
    unfolding save_status
    save_status_adds_none namespace name s =
        retry_keeps env law (write_status env namespace name s.mysql.status)
          (λ t. bootstraps t.trace ≤ bootstraps s.trace)
          (write_status_adds_none namespace name s.mysql.status (bootstraps s.trace)) s
          (omega arith)

    -- Where RetryOnConflict keeps its law, a pass over pods of different names attempts at most one
    -- bootstrap, provided that there is no restart candidate or the group has been bootstrapped.
    pub at_most_one_bootstrap :
        (pods : List Pod) (bootstrapped : Bool) (s : State Db W)
        → NoRepeat (map name_of pods)
        → (candidate ≡ []) ⊎ (bootstrapped ≡ true)
        → bootstraps
            (reconcile_pods env repl_pass names root_pass candidate pods bootstrapped s).1.trace
          ≤ bootstraps s.trace + 1
    unfolding reconcile_pods
    at_most_one_bootstrap pods bootstrapped s d c =
        let start : Progress = record { bootstrapped = bootstrapped; status_dirty = false } in
        let t = (loop pods start s).1 in
        ground (
          arith,
          loop_fresh pods start s,
          loop_candidate pods start s,
          save_status_adds_none t.mysql.namespace t.mysql.name t,
        )
