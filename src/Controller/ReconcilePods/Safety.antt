-- ===== src/Controller/ReconcilePods/Safety.antt =====
-- When `reconcilePods` leaves the group alone, and which pods it talks to.
use yet_another_mysql_operat.Prelude.{
  ◌≡◌, refl, sym, ℕ, ◌∙◌, ap, fun_ext, Bool, true, false, List, [], ◌∷◌, arith, if◌then◌else◌,
  Bool-cases, inl, inr,
}
use yet_another_mysql_operat.Prelude.Result.{ok, Exec, ◌>>=◌}
use yet_another_mysql_operat.Prelude.Text.{Text}
use yet_another_mysql_operat.Api.{MySqlStatus}
use yet_another_mysql_operat.Controller.Objects.{Pod}
use yet_another_mysql_operat.Controller.Names.{ResourceNames}
use yet_another_mysql_operat.Controller.Pods.{is_contactable}
use yet_another_mysql_operat.Controller.Env.{Env, State, release, guarded, write_status}
use yet_another_mysql_operat.Controller.Retry.{IsRetry}
use yet_another_mysql_operat.Controller.Trace.{bootstraps, changes}
use yet_another_mysql_operat.Controller.ReconcilePods.{
  Progress, choose_action, reconcile_pod, pods_loop, reconcile_pods,
}
use yet_another_mysql_operat.Controller.ReconcilePods.Induction.{reconcile_pods_keeps}

-- The pods that are ready and have an address.
abbrev pub contactable : List Pod → List Pod
contactable [] = []
contactable (pod ∷ pods) = if is_contactable pod then pod ∷ contactable pods else contactable pods

-- No call that changes a server, and the same shared object.
abbrev pub Untouched : {Db W : Type 0} → State Db W → State Db W → Type 0
Untouched s t = (changes t.trace ≡ changes s.trace) × (t.mysql ≡ s.mysql)

module _ {Db W : Type 0} (env : Env Db W) where
  -- Every client that asks sees an online member.
  abbrev pub SeesOnline : Type 0
  SeesOnline = (client : Db) (w : W) → (env.gr.any_online_member client w).0 ≡ ok true

  -- Every client reports that its own server is in the group.
  abbrev pub AllOnline : Type 0
  AllOnline = (client : Db) (w : W) → (env.gr.self_online client w).0 ≡ ok true

module _ {Db W : Type 0} (env : Env Db W) (repl_pass : Text) (names : ResourceNames)
    (root_pass : Text) (candidate : Text) where
  abbrev visit : Pod → Progress → Exec (State Db W) Progress
  visit = reconcile_pod env repl_pass names root_pass candidate

  abbrev loop : List Pod → Progress → Exec (State Db W) Progress
  loop = pods_loop env repl_pass names root_pass candidate

  skip :
      (pod : Pod) (pods : List Pod) (p : Progress) (s : State Db W)
      → is_contactable pod ≡ false
      → loop (pod ∷ pods) p s ≡ loop pods p s
  unfolding pods_loop reconcile_pod
  skip pod pods p s h = rw h

  loop-cong :
      (pod : Pod) (xs ys : List Pod) (p : Progress) (s : State Db W)
      → ((q : Progress) (t : State Db W) → loop xs q t ≡ loop ys q t)
      → loop (pod ∷ xs) p s ≡ loop (pod ∷ ys) p s
  unfolding pods_loop
  loop-cong pod xs ys p s h =
      ap (λ (k : Progress → Exec (State Db W) Progress). (visit pod p >>= k) s)
        (fun_ext λ q. fun_ext λ t. h q t)

  loop-contactable :
      (pods : List Pod) (p : Progress) (s : State Db W)
      → loop (contactable pods) p s ≡ loop pods p s
  loop-contactable [] p s = refl
  loop-contactable (pod ∷ pods) p s = elim (Bool-cases (is_contactable pod)) [
    | inl yes' ↦ rw yes' (loop-cong pod (contactable pods) pods p s (loop-contactable pods))
    | inr no' ↦ rw no' (loop-contactable pods p s ∙ sym (skip pod pods p s no'))
  ]

  -- Pods that are not ready or have no address are as good as absent: the result, the calls and the
  -- final state are those of the other pods alone.
  pub reconcile_pods-contactable :
      (pods : List Pod) (bootstrapped : Bool) (s : State Db W)
      → reconcile_pods env repl_pass names root_pass candidate (contactable pods) bootstrapped s
        ≡ reconcile_pods env repl_pass names root_pass candidate pods bootstrapped s
  unfolding reconcile_pods
  reconcile_pods-contactable pods bootstrapped s = rw (loop-contactable pods)

  module _ (law : IsRetry env) where
    write_adds_none :
        (namespace name : Text) (desired : MySqlStatus) (n : ℕ) (s : State Db W)
        → bootstraps s.trace ≡ n
        → bootstraps (write_status env namespace name desired s).1.trace ≡ n
    unfolding write_status
    write_adds_none namespace name desired n s h = ground arith

    visit_sees_online :
        SeesOnline env
        → (n : ℕ) (pod : Pod) (p : Progress) (s : State Db W) → bootstraps s.trace ≡ n
        → bootstraps (visit pod p s).1.trace ≡ n
    unfolding reconcile_pod guarded release choose_action
    visit_sees_online online n pod p s h = grind (arith, online)

    -- Where RetryOnConflict keeps its law and every client that asks sees an online member, a pass
    -- over the pods attempts no bootstrap.
    pub online_group_is_kept :
        SeesOnline env
        → (pods : List Pod) (bootstrapped : Bool) (s : State Db W)
        → bootstraps
            (reconcile_pods env repl_pass names root_pass candidate pods bootstrapped s).1.trace
          ≡ bootstraps s.trace
    online_group_is_kept online pods bootstrapped s =
        reconcile_pods_keeps env law (λ t. bootstraps t.trace ≡ bootstraps s.trace)
          (λ namespace name desired t h.
            write_adds_none namespace name desired (bootstraps s.trace) t h)
          repl_pass names root_pass candidate
          (λ pod p t h. visit_sees_online online (bootstraps s.trace) pod p t h) pods bootstrapped s
          refl

    write-Untouched :
        (namespace name : Text) (desired : MySqlStatus) (s t : State Db W)
        → Untouched s t
        → Untouched s (write_status env namespace name desired t).1
    unfolding write_status
    write-Untouched namespace name desired s t h = ground arith

    visit-Untouched :
        AllOnline env
        → (pod : Pod) (p : Progress) (s t : State Db W) → Untouched s t
        → Untouched s (visit pod p t).1
    unfolding reconcile_pod guarded release
    visit-Untouched online pod p s t h = grind (arith, online)

    -- Where RetryOnConflict keeps its law and every client reports its own server online, a pass
    -- over the pods creates no user, bootstraps and joins nothing, and keeps the shared object.
    pub healthy_group-Untouched :
        AllOnline env
        → (pods : List Pod) (bootstrapped : Bool) (s : State Db W)
        → Untouched s (reconcile_pods env repl_pass names root_pass candidate pods bootstrapped s).1
    healthy_group-Untouched online pods bootstrapped s =
        reconcile_pods_keeps env law (Untouched s)
          (λ namespace name desired t h. write-Untouched namespace name desired s t h) repl_pass
          names root_pass candidate (λ pod p t h. visit-Untouched online pod p s t h) pods
          bootstrapped s (refl, refl)
