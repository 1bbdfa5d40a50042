-- ===== src/Controller/Recovery/Loop.antt =====
-- `reconcilePods` on a group that is down: what its first pod decides.
use yet_another_mysql_operat.Prelude.{
  ◌≡◌, ◌≢◌, ◌≤◌, ◌+◌, inl, inr, refl, Bool, true, false, List, [], ◌∷◌, some, arith, Bool-cases,
}
use yet_another_mysql_operat.Prelude.Result.{Error, Result, ok, err, Result-cases, Exec}
use yet_another_mysql_operat.Prelude.Text.{Text}
use yet_another_mysql_operat.Api.{MySqlStatus}
use yet_another_mysql_operat.Controller.Objects.{Pod}
use yet_another_mysql_operat.Controller.Names.{ResourceNames}
use yet_another_mysql_operat.Controller.Pods.{is_contactable}
use yet_another_mysql_operat.Controller.Env.{Env, State, release, guarded}
use yet_another_mysql_operat.Controller.Trace.{bootstraps}
use yet_another_mysql_operat.Controller.ReconcilePods.{join, Progress, reconcile_pod, pods_loop}
use yet_another_mysql_operat.Controller.Recovery.{
  Answers, Refuses, is_ok, first_contactable, opening,
}
use yet_another_mysql_operat.Controller.Recovery.Visits.{visit_up, visit_joins_down, visit_opens}

-- The status once the group has been brought up
abbrev pub IsSettled : MySqlStatus → Type 0
IsSettled status = (status.restart_candidate ≡ []) × (status.group_replication_bootstrapped ≡ true)

module _ {Db W : Type 0} (env : Env Db W) (repl_pass : Text) (names : ResourceNames)
    (root_pass : Text) (candidate : Text) where
  abbrev visit : Pod → Progress → Exec (State Db W) Progress
  visit = reconcile_pod env repl_pass names root_pass candidate

  abbrev loop : List Pod → Progress → Exec (State Db W) Progress
  loop = pods_loop env repl_pass names root_pass candidate

  visit_stays-IsSettled :
      (pod : Pod) (p : Progress) (s : State Db W)
      → IsSettled s.mysql.status
      → let (r, t) = visit pod p s in
        IsSettled t.mysql.status
        × (bootstraps s.trace ≤ bootstraps t.trace)
        × ((p' : Progress) → r ≡ ok p' → p.status_dirty ≡ true → p'.status_dirty ≡ true)
  unfolding reconcile_pod guarded release
  visit_stays-IsSettled pod p s h = ground (arith, h)

  skip :
      (pod : Pod) (pods : List Pod) (p : Progress) (s : State Db W)
      → is_contactable pod ≡ false
      → loop (pod ∷ pods) p s ≡ loop pods p s
  unfolding pods_loop reconcile_pod
  skip pod pods p s h = rw h refl

  go_on :
      (pod : Pod) (pods : List Pod) (p p' : Progress) (s : State Db W)
      → (visit pod p s).0 ≡ ok p'
      → loop (pod ∷ pods) p s ≡ loop pods p' (visit pod p s).1
  unfolding pods_loop
  go_on pod pods p p' s e = rw e refl

  stop :
      (pod : Pod) (pods : List Pod) (p : Progress) (s : State Db W) (e : Error)
      → (visit pod p s).0 ≡ err e
      → loop (pod ∷ pods) p s ≡ (err e, (visit pod p s).1)
  unfolding pods_loop
  stop pod pods p s e h = rw h refl

  module _ (up : W → Bool) (answers : Answers env up) where
    -- What a loop that succeeds leaves of a group that it found up and settled
    abbrev StaysUp : State Db W → Result Progress × State Db W → Type 0
    StaysUp s x =
        (is_ok x.0 ≡ true)
        × (up x.1.world ≡ true)
        × IsSettled x.1.mysql.status
        × (bootstraps s.trace ≤ bootstraps x.1.trace)
        × ((p : Progress) → x.0 ≡ ok p → p.status_dirty ≡ true)

    loop_succeeds :
        (pods : List Pod) (p : Progress) (s : State Db W)
        → up s.world ≡ true
        → IsSettled s.mysql.status
        → p.status_dirty ≡ true
        → StaysUp s (loop pods p s)
    loop_succeeds [] p s u h d = unfold pods_loop in ground (arith, u, h, d)
    loop_succeeds (pod ∷ pods) p s u h d = elim (Result-cases (visit pod p s).0) [
      | inl (p', e) ↦
          let t = (visit pod p s).1 in
          let here = visit_up env up answers repl_pass names root_pass candidate pod p s u in
          let (settled, more, dirty) = visit_stays-IsSettled pod p s h in
          let (fine, is_up, is_settled, counted, is_dirty) =
            loop_succeeds pods p' t here.1 settled (dirty p' e d) in
          rw (go_on pod pods p p' s e)
            (fine, is_up, is_settled, omega (arith, more, counted), is_dirty)
      | inr (f, e) ↦
          ground (arith, e, visit_up env up answers repl_pass names root_pass candidate pod p s u)
    ]

    abbrev Opened : State Db W → Result Progress × State Db W → Type 0
    Opened s x =
        (is_ok x.0 ≡ true)
        × (up x.1.world ≡ true)
        × IsSettled x.1.mysql.status
        × (bootstraps s.trace + 1 ≤ bootstraps x.1.trace)
        × ((p : Progress) → x.0 ≡ ok p → p.status_dirty ≡ true)

    abbrev Blocked : State Db W → Result Progress × State Db W → Type 0
    Blocked s x =
        (is_ok x.0 ≡ false)
        × (x.1.mysql ≡ s.mysql)
        × (bootstraps x.1.trace ≡ bootstraps s.trace)
        × (up x.1.world ≡ false)

    -- Where the loop does not join the first pod that it can reach, it brings the group up.
    pub loop_opens :
        (first : Pod) (pods : List Pod) (p : Progress) (s : State Db W)
        → up s.world ≡ false
        → first_contactable pods ≡ some first
        → p.bootstrapped ≡ s.mysql.status.group_replication_bootstrapped
        → opening candidate first p.bootstrapped s.mysql.spec.group_replication.force_bootstrap
          ≢ join
        → Opened s (loop pods p s)
    loop_opens first [] p s down at b a = cc
    loop_opens first (pod ∷ pods) p s down at b a = elim (Bool-cases (is_contactable pod)) [
      | inl c ↦
          let same : pod ≡ first = ground (arith, at, c) in
          let t = (visit pod p s).1 in
          let (fine, is_up, one, no_candidate, recorded, dirty) =
            visit_opens env up answers repl_pass names root_pass candidate pod p s down c b
              (rw same a) in
          elim (Result-cases (visit pod p s).0) [
            | inl (p', e) ↦
                let (fine', up', settled, more, dirty') =
                  loop_succeeds pods p' t is_up (no_candidate, recorded) (dirty p' e) in
                rw (go_on pod pods p p' s e) (fine', up', settled, omega (arith, one, more), dirty')
            | inr (f, e) ↦ ground (arith, e, fine)
          ]
      | inr c ↦
          rw (skip pod pods p s c) (loop_opens first pods p s down (ground (arith, at, c)) b a)
    ]

    -- Where it joins that pod, it fails there.
    pub loop-Blocked :
        Refuses env up
        → (first : Pod) (pods : List Pod) (p : Progress) (s : State Db W) → up s.world ≡ false
        → first_contactable pods ≡ some first
        → opening candidate first p.bootstrapped s.mysql.spec.group_replication.force_bootstrap
          ≡ join
        → Blocked s (loop pods p s)
    loop-Blocked refuses first [] p s down at a = cc
    loop-Blocked refuses first (pod ∷ pods) p s down at a = elim (Bool-cases (is_contactable pod)) [
      | inl c ↦
          let same : pod ≡ first = ground (arith, at, c) in
          let (fails, kept, none_more, is_down) =
            visit_joins_down env up answers repl_pass names root_pass candidate refuses pod p s down
              c (rw same a) in
          elim (Result-cases (visit pod p s).0) [
            | inl (p', e) ↦ ground (arith, e, fails)
            | inr (f, e) ↦ rw (stop pod pods p s f e) (refl, kept, none_more, is_down)
          ]
      | inr c ↦
          rw (skip pod pods p s c)
            (loop-Blocked refuses first pods p s down (ground (arith, at, c)) a)
    ]
