-- ===== src/Controller/Recovery/Visits.antt =====
-- One round of the loop over the pods, for a group that is down and for one that is up.
use yet_another_mysql_operat.Prelude.{◌≡◌, ◌≢◌, ◌+◌, Bool, true, false, [], arith}
use yet_another_mysql_operat.Prelude.Result.{ok}
use yet_another_mysql_operat.Prelude.Text.{Text}
use yet_another_mysql_operat.Controller.Objects.{Pod}
use yet_another_mysql_operat.Controller.Names.{ResourceNames}
use yet_another_mysql_operat.Controller.Pods.{is_contactable, build_dsn}
use yet_another_mysql_operat.Controller.Env.{Env, State, release, guarded}
use yet_another_mysql_operat.Controller.Trace.{bootstraps}
use yet_another_mysql_operat.Controller.ReconcilePods.{join, Progress, choose_action, reconcile_pod}
use yet_another_mysql_operat.Controller.Recovery.{Answers, Refuses, is_ok, opening}

module _ {Db W : Type 0} (env : Env Db W) (up : W → Bool) (answers : Answers env up)
    (repl_pass : Text) (names : ResourceNames) (root_pass : Text) (candidate : Text) where
  -- In a group that is up every round succeeds, and the group stays up.
  pub visit_up :
      (pod : Pod) (p : Progress) (s : State Db W)
      → up s.world ≡ true
      → let (r, t) = reconcile_pod env repl_pass names root_pass candidate pod p s in
        (is_ok r ≡ true) × (up t.world ≡ true)
  unfolding reconcile_pod guarded release
  visit_up pod p s h = grind (
    arith, h, answers.connects, answers.connects_up, answers.closes_up, answers.self,
    answers.self_up, answers.any, answers.any_up, answers.user, answers.user_up, answers.bootstraps,
    answers.bootstraps_up, answers.joins, answers.joins_up,
  )

  -- Joining a group that is down fails, and leaves the object and the bootstraps as they were.
  pub visit_joins_down :
      Refuses env up
      → (pod : Pod) (p : Progress) (s : State Db W) → up s.world ≡ false
      → is_contactable pod ≡ true
      → opening candidate pod p.bootstrapped s.mysql.spec.group_replication.force_bootstrap ≡ join
      → let (r, t) = reconcile_pod env repl_pass names root_pass candidate pod p s in
        (is_ok r ≡ false)
        × (t.mysql ≡ s.mysql)
        × (bootstraps t.trace ≡ bootstraps s.trace)
        × (up t.world ≡ false)
  unfolding reconcile_pod guarded release build_dsn
  visit_joins_down refuses pod p s h c a = grind (
    arith, h, c, a, answers.connects, answers.connects_up, answers.closes_up, answers.self_up,
    answers.self_down, answers.any_up, answers.any_down, answers.user, answers.user_up,
    refuses.no_join, answers.joins_up,
  )

  -- Where the loop bootstraps a group that is down, the group is up behind it, recorded as
  -- bootstrapped, and without a restart candidate.
  pub visit_opens :
      (pod : Pod) (p : Progress) (s : State Db W)
      → up s.world ≡ false
      → is_contactable pod ≡ true
      → p.bootstrapped ≡ s.mysql.status.group_replication_bootstrapped
      → opening candidate pod p.bootstrapped s.mysql.spec.group_replication.force_bootstrap ≢ join
      → let (r, t) = reconcile_pod env repl_pass names root_pass candidate pod p s in
        (is_ok r ≡ true)
        × (up t.world ≡ true)
        × (bootstraps t.trace ≡ bootstraps s.trace + 1)
        × (t.mysql.status.restart_candidate ≡ [])
        × (t.mysql.status.group_replication_bootstrapped ≡ true)
        × ((p' : Progress) → r ≡ ok p' → p'.status_dirty ≡ true)
  unfolding reconcile_pod guarded release build_dsn choose_action
  visit_opens pod p s h c b a = grind (
    arith, h, c, b, a, answers.connects, answers.connects_up, answers.closes_up, answers.self_up,
    answers.self_down, answers.any_up, answers.any_down, answers.user, answers.user_up,
    answers.bootstraps, answers.bootstraps_up,
  )
