-- ===== src/Controller/Recovery/Pods.antt =====
-- `reconcilePods` as a whole on a group that is down: it brings the group up, or fails and changes
-- nothing that the next pass looks at.
use yet_another_mysql_operat.Prelude.{
  ◌≡◌, ◌≢◌, ◌⊎◌, ◌≤◌, ◌+◌, inl, inr, refl, sym, ap, ◌∙◌, Bool, true, false, List, [], map, some,
  arith,
}
use yet_another_mysql_operat.Prelude.Result.{Error, ok, err, Result-cases}
use yet_another_mysql_operat.Prelude.Text.{Text}
use yet_another_mysql_operat.Prelude.Sort.Laws.{NoRepeat}
use yet_another_mysql_operat.Api.{MySqlStatus}
use yet_another_mysql_operat.Controller.Objects.{Pod}
use yet_another_mysql_operat.Controller.Names.{ResourceNames}
use yet_another_mysql_operat.Controller.Env.{Env, State, save_status, write_status}
use yet_another_mysql_operat.Controller.Retry.{IsRetry}
use yet_another_mysql_operat.Controller.Trace.{bootstraps, last_written, status_writes}
use yet_another_mysql_operat.Controller.ReconcilePods.{join, Progress, pods_loop, reconcile_pods}
use yet_another_mysql_operat.Controller.ReconcilePods.Induction.{save_status_keeps}
use yet_another_mysql_operat.Controller.ReconcilePods.Status.{
  save_status_keeps_mysql, save_status_writes, failed_pass_saves_nothing,
}
use yet_another_mysql_operat.Controller.ReconcilePods.Bootstraps.{name_of, at_most_one_bootstrap}
use yet_another_mysql_operat.Controller.Recovery.{
  Answers, Refuses, Apart, is_ok, first_contactable, opening_in,
}
use yet_another_mysql_operat.Controller.Recovery.Loop.{IsSettled, loop_opens, loop-Blocked}

module _ {Db W : Type 0} (env : Env Db W) (law : IsRetry env) (up : W → Bool)
    (answers : Answers env up) (apart : Apart env up) where
  write_up :
      (b : Bool) (namespace name : Text) (desired : MySqlStatus) (s : State Db W)
      → up s.world ≡ b
      → up (write_status env namespace name desired s).1.world ≡ b
  unfolding write_status
  write_up b namespace name desired s h = grind (arith, h, apart.reads_up, apart.writes_up)

  pub save_up :
      (namespace name : Text) (s : State Db W)
      → up (save_status env namespace name s).1.world ≡ up s.world
  save_up namespace name s =
      save_status_keeps env law (λ t. up t.world ≡ up s.world)
        (λ ns n d t h. write_up (up s.world) ns n d t h) namespace name s refl

  save_counts :
      (namespace name : Text) (s : State Db W)
      → bootstraps (save_status env namespace name s).1.trace ≡ bootstraps s.trace
  unfolding write_status
  save_counts namespace name s =
      save_status_keeps env law (λ t. bootstraps t.trace ≡ bootstraps s.trace)
        (λ ns n d t h. ground (arith, h)) namespace name s refl

  save-ok : (namespace name : Text) (s : State Db W) → (save_status env namespace name s).0 ≡ ok tt
  unfolding save_status
  save-ok namespace name s = refl

  module _ (repl_pass : Text) (names : ResourceNames) (root_pass : Text) (candidate : Text)
      (first : Pod) (pods : List Pod) (at : first_contactable pods ≡ some first) where
    abbrev begin : Bool → Progress
    begin bootstrapped = record { bootstrapped = bootstrapped; status_dirty = false }

    saves :
        (b : Bool) (p : Progress) (s : State Db W)
        → (pods_loop env repl_pass names root_pass candidate pods (begin b) s).0 ≡ ok p
        → p.status_dirty ≡ true
        → let t = (pods_loop env repl_pass names root_pass candidate pods (begin b) s).1 in
          reconcile_pods env repl_pass names root_pass candidate pods b s
          ≡ save_status env t.mysql.namespace t.mysql.name t
    unfolding reconcile_pods
    saves b p s e d = rw (e, d) refl

    run_fails :
        (b : Bool) (f : Error) (s : State Db W)
        → (pods_loop env repl_pass names root_pass candidate pods (begin b) s).0 ≡ err f
        → reconcile_pods env repl_pass names root_pass candidate pods b s
          ≡ (err f, (pods_loop env repl_pass names root_pass candidate pods (begin b) s).1)
    unfolding reconcile_pods
    run_fails b f s e = rw e refl

    -- Where the group is down, pods have different names, and the first pod that can be reached is
    -- one that is bootstrapped: the pass succeeds and brings the group up with one bootstrap, and
    -- the status is settled, in memory and in the last attempt to write it.
    pub pods_open :
        (s : State Db W)
        → up s.world ≡ false
        → NoRepeat (map name_of pods)
        → let b = s.mysql.status.group_replication_bootstrapped in
          let x = reconcile_pods env repl_pass names root_pass candidate pods b s in
          (candidate ≡ []) ⊎ (b ≡ true)
          → opening_in candidate first s ≢ join
          → (x.0 ≡ ok tt)
            × (up x.1.world ≡ true)
            × IsSettled x.1.mysql.status
            × (bootstraps x.1.trace ≡ bootstraps s.trace + 1)
            × (last_written x.1.trace ≡ some x.1.mysql.status)
    pods_open s down distinct consistent a =
        let b = s.mysql.status.group_replication_bootstrapped in
        let most =
          at_most_one_bootstrap env repl_pass names root_pass candidate law pods b s distinct
            consistent in
        let t = (pods_loop env repl_pass names root_pass candidate pods (begin b) s).1 in
        let (fine, is_up, settled, counted, dirty) =
          loop_opens env repl_pass names root_pass candidate up answers first pods (begin b) s down
            at refl a in
        elim (Result-cases (pods_loop env repl_pass names root_pass candidate pods (begin b) s).0) [
          | inl (p, e) ↦
              let run = saves b p s e (dirty p e) in
              let namespace = t.mysql.namespace in
              let name = t.mysql.name in
              let few : bootstraps (save_status env namespace name t).1.trace
                  ≤ bootstraps s.trace + 1 =
                rw (sym run) most in
              rw (run, save_status_keeps_mysql env law namespace name t)
                (
                  save-ok namespace name t,
                  save_up namespace name t ∙ is_up,
                  settled,
                  omega (arith, few, counted, save_counts namespace name t),
                  save_status_writes env law apart.reads namespace name t,
                )
          | inr (f, e) ↦ ground (arith, e, fine)
        ]

    -- Where the group is down and the first pod that can be reached is one that is joined, the pass
    -- fails. It has bootstrapped nothing, it leaves the group down and the object as it was, and it
    -- has attempted to write no status.
    pub pods_blocked :
        Refuses env up
        → (s : State Db W) → up s.world ≡ false
        → opening_in candidate first s ≡ join
        → let b = s.mysql.status.group_replication_bootstrapped in
          let x = reconcile_pods env repl_pass names root_pass candidate pods b s in
          (is_ok x.0 ≡ false)
          × (x.1.mysql ≡ s.mysql)
          × (bootstraps x.1.trace ≡ bootstraps s.trace)
          × (up x.1.world ≡ false)
          × (status_writes x.1.trace ≡ status_writes s.trace)
    pods_blocked refuses s down a =
        let b = s.mysql.status.group_replication_bootstrapped in
        let (fails, kept, none_more, is_down) =
          loop-Blocked env repl_pass names root_pass candidate up answers refuses first pods
            (begin b) s down at a in
        elim (Result-cases (pods_loop env repl_pass names root_pass candidate pods (begin b) s).0) [
          | inl (p, e) ↦ ground (arith, e, fails)
          | inr (f, e) ↦
              let same = run_fails b f s e in
              let unsaved =
                failed_pass_saves_nothing env law repl_pass names root_pass candidate pods b s f
                  (ap (λ x. x.0) same) in
              rw same (
                refl,
                kept,
                none_more,
                is_down,
                ap (λ x. status_writes x.1.trace) (sym same) ∙ unsaved,
              )
        ]
