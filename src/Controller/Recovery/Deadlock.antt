-- ===== src/Controller/Recovery/Deadlock.antt =====
-- A restart that never happens: a pass that joins a pod of a group that is down fails there, so the pod
-- that it would bootstrap, which stands behind, is not reached, in this pass or a later one.
use yet_another_mysql_operat.Prelude.{
  ◌≡◌, ◌≢◌, inl, inr, refl, ◌∙◌, Bool, true, false, [], some, arith, Bool-cases,
}
use yet_another_mysql_operat.Prelude.Text.{Text, text_eq, text_eq_sound}
use yet_another_mysql_operat.Api.{MySql}
use yet_another_mysql_operat.Controller.Objects.{Pod}
use yet_another_mysql_operat.Controller.Names.{ResourceNames}
use yet_another_mysql_operat.Controller.Env.{Env, State}
use yet_another_mysql_operat.Controller.Retry.{IsRetry}
use yet_another_mysql_operat.Controller.Trace.{bootstraps}
use yet_another_mysql_operat.Controller.ReconcilePods.{join, choose_action}
use yet_another_mysql_operat.Controller.GroupReplication.{Loaded, reconcile_group_replication}
use yet_another_mysql_operat.Controller.Recovery.{
  Answers, Refuses, Apart, is_ok, first_contactable, opening, opening_in,
}
use yet_another_mysql_operat.Controller.Recovery.Looking.{Supplies}
use yet_another_mysql_operat.Controller.Recovery.Passes.{
  waits_for_candidate, awaited_bootstrapped, pass-Stuck,
}
use yet_another_mysql_operat.Controller.Recovery.Protocol.{pass-Records, is_empty_no}

-- Once the group has been bootstrapped, a pod that is not the restart candidate is joined.
joins_other :
    (candidate : Text) (pod : Pod) (force : Bool)
    → pod.name ≢ candidate
    → opening candidate pod true force ≡ join
unfolding choose_action
joins_other candidate pod force h = elim (Bool-cases (text_eq pod.name candidate)) [
  | inl e ↦ absurd (h (text_eq_sound pod.name candidate e))
  | inr e ↦ ground (arith, e)
]

-- What the passes look at in the object
pub record SameGroup (m n : MySql) : Type 0 where
  pub bootstrapped :
      n.status.group_replication_bootstrapped ≡ m.status.group_replication_bootstrapped
  pub candidate : n.status.restart_candidate ≡ m.status.restart_candidate
  pub force : n.spec.group_replication.force_bootstrap ≡ m.spec.group_replication.force_bootstrap

module _ {Db W : Type 0} (env : Env Db W) (law : IsRetry env) (up : W → Bool)
    (answers : Answers env up) (apart : Apart env up) (names : ResourceNames) (loaded : Loaded)
    (supplies : Supplies env up names loaded) (refuses : Refuses env up) where
  -- The states that are reached from `s`: by passes, and by changes in between that neither touch
  -- what the passes look at nor bring the group up, as a reading of the object or a write of the
  -- status `Degraded`.
  pub data Later (s : State Db W) : State Db W → Type 0 where
    now : Later s s
    passed : (t : State Db W) → Later s t → Later s (reconcile_group_replication env names t).1
    changed :
        (t u : State Db W)
        → Later s t
        → SameGroup t.mysql u.mysql
        → bootstraps u.trace ≡ bootstraps t.trace
        → up u.world ≡ up t.world
        → Later s u

  module _ (first : Pod) (at : first_contactable loaded.pods ≡ some first) where
    -- The group is down, and the first pod that can be reached would be joined.
    pub record IsStuck (s t : State Db W) : Type 0 where
      pub down : up t.world ≡ false
      pub idle : waits_for_candidate t ≡ false
      pub joins : opening_in t.mysql.status.restart_candidate first t ≡ join
      pub none_more : bootstraps t.trace ≡ bootstraps s.trace

    stays-IsStuck : (s t : State Db W) → IsStuck s s → Later s t → IsStuck s t
    stays-IsStuck s t h now = h
    stays-IsStuck s _ h (passed t l) =
        let i = stays-IsStuck s t h l in
        let (_, kept, few, down, _) =
          pass-Stuck env law up answers apart names loaded supplies first at refuses t i.down i.idle
            i.joins in
        record {
          down = down;
          idle = rw kept i.idle;
          joins = rw kept i.joins;
          none_more = few ∙ i.none_more;
        }
    stays-IsStuck s _ h (changed t u l g few still) =
        let i = stays-IsStuck s t h l in
        record {
          down = still ∙ i.down;
          idle = rw (g.bootstrapped, g.candidate) i.idle;
          joins = rw (g.bootstrapped, g.candidate, g.force) i.joins;
          none_more = few ∙ i.none_more;
        }

    -- A group that was bootstrapped and is down, without a restart candidate, is not restarted if a
    -- pass records a candidate that is not the first pod that can be reached, and servers refuse to
    -- join while the group is down: at any later time, as long as nothing else brings the group up,
    -- it is still down, no bootstrap has been attempted, and the next pass fails. The API server
    -- and the servers answer as in a restart that succeeds.
    pub other_choice_is_stuck :
        (s : State Db W)
        → up s.world ≡ false
        → waits_for_candidate s ≡ true
        → let u = (reconcile_group_replication env names s).1 in
          u.mysql.status.restart_candidate ≢ []
          → first.name ≢ u.mysql.status.restart_candidate
          → (t : State Db W) → Later u t
          → (up t.world ≡ false)
            × (bootstraps t.trace ≡ bootstraps s.trace)
            × (is_ok (reconcile_group_replication env names t).0 ≡ false)
    other_choice_is_stuck s down w non_empty other t l =
        let (_, records) =
          pass-Records env law up answers apart names loaded supplies first at s down w in
        let u = (reconcile_group_replication env names s).1 in
        let boot = records.bootstrapped ∙ awaited_bootstrapped s w in
        let begin : IsStuck u u = record {
          down = records.still ∙ down;
          idle = rw (boot, is_empty_no u.mysql.status.restart_candidate non_empty) refl;
          joins = rw boot (
              joins_other u.mysql.status.restart_candidate first
                u.mysql.spec.group_replication.force_bootstrap other);
          none_more = refl;
        } in
        let i = stays-IsStuck u t begin l in
        let (fails, _, _, _, _) =
          pass-Stuck env law up answers apart names loaded supplies first at refuses t i.down i.idle
            i.joins in
        (i.down, i.none_more ∙ records.same_bootstraps, fails)
