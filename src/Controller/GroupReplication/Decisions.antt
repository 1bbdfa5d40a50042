-- ===== src/Controller/GroupReplication/Decisions.antt =====
-- What a whole group replication pass decides: at most one bootstrap, and none where it records a
-- restart candidate.
use yet_another_mysql_operat.Prelude.{
  ◌+◌, ◌≤◌, ◌≡◌, ◌≢◌, ◌⊎◌, Bool, true, false, List, [], map, arith, some,
}
use yet_another_mysql_operat.Prelude.Result.{ok, bind_keeps, annotate}
use yet_another_mysql_operat.Prelude.Text.{Text, codes}
use yet_another_mysql_operat.Prelude.Sort.Laws.{NoRepeat}
use yet_another_mysql_operat.Api.{MySqlStatus}
use yet_another_mysql_operat.Controller.Objects.{Pod}
use yet_another_mysql_operat.Controller.Names.{ResourceNames}
use yet_another_mysql_operat.Controller.Env.{Env, State, write_status}
use yet_another_mysql_operat.Controller.Retry.{IsRetry}
use yet_another_mysql_operat.Controller.Trace.{bootstraps, changes, last_written}
use yet_another_mysql_operat.Controller.Collect.{Collected, collect_group_info}
use yet_another_mysql_operat.Controller.Collect.Laws.{collect-Looks}
use yet_another_mysql_operat.Controller.ReconcilePods.Induction.{save_status_keeps}
use yet_another_mysql_operat.Controller.ReconcilePods.Bootstraps.{name_of, at_most_one_bootstrap}
use yet_another_mysql_operat.Controller.ReconcilePods.Status.{
  IsConsistent, Readable, save_status_writes, save_status_keeps_mysql,
}
use yet_another_mysql_operat.Controller.GroupReplication.{
  Loaded, load_secrets_and_pods, pick_with, save_candidate, record_candidate, act_on,
  with_collected, collect_and_act, reconcile_group_replication,
}

-- No call that changes a database server.
abbrev pub ChangesNothing : {Db W : Type 0} → State Db W → State Db W → Type 0
ChangesNothing s t = (changes t.trace ≡ changes s.trace) × (bootstraps t.trace ≡ bootstraps s.trace)

module _ {Db W : Type 0} (env : Env Db W) where
  -- Listed pods have different names, as the names in a namespace have.
  abbrev pub ListsDistinct : Type 0
  ListsDistinct =
      (namespace app : Text) (w : W) (pods : List Pod)
      → (env.kube.list_pods namespace app w).0 ≡ ok pods
      → NoRepeat (map name_of pods)

  load_distinct :
      ListsDistinct
      → (names : ResourceNames) (s : State Db W) (loaded : Loaded)
      → (load_secrets_and_pods env names s).0 ≡ ok loaded
      → NoRepeat (map name_of loaded.pods)
  unfolding load_secrets_and_pods
  load_distinct distinct names s loaded e = grind (arith, distinct)

module _ {Db W : Type 0} (env : Env Db W) (law : IsRetry env) where
  write-ChangesNothing :
      (namespace name : Text) (desired : MySqlStatus) (s t : State Db W)
      → ChangesNothing s t
      → ChangesNothing s (write_status env namespace name desired t).1
  unfolding write_status
  write-ChangesNothing namespace name desired s t h = ground arith

  save-ChangesNothing :
      (candidate : Text) (s t : State Db W)
      → ChangesNothing s t
      → ChangesNothing s (save_candidate env candidate t).1
  unfolding save_candidate
  save-ChangesNothing candidate s t h =
      save_status_keeps env law (ChangesNothing s) (λ ns n d u k. write-ChangesNothing ns n d s u k)
        t.mysql.namespace t.mysql.name
        (record t {
          mysql = record t.mysql {
            status = record t.mysql.status { restart_candidate = candidate };
          };
        })
        h

  pick-ChangesNothing :
      (collected : Collected Db) (s : State Db W)
      → ChangesNothing s (pick_with env collected.cmp_db collected.infos s).1
  unfolding pick_with
  pick-ChangesNothing collected s = ground arith

  candidate-ChangesNothing :
      (collected : Collected Db) (s : State Db W)
      → ChangesNothing s (record_candidate env collected s).1
  unfolding record_candidate
  candidate-ChangesNothing collected s =
      bind_keeps (ChangesNothing s)
        (annotate (codes "pick restart candidate") (pick_with env collected.cmp_db collected.infos))
        (save_candidate env) s (pick-ChangesNothing collected s)
        (λ candidate _. save-ChangesNothing candidate s _ (pick-ChangesNothing collected s))

  saved :
      Readable env
      → (candidate : Text) (s : State Db W)
      → ((save_candidate env candidate s).1.mysql.status.restart_candidate ≡ candidate)
        × (last_written (save_candidate env candidate s).1.trace
            ≡ some (save_candidate env candidate s).1.mysql.status)
  unfolding save_candidate
  saved readable candidate s =
      let t : State Db W = record s {
        mysql = record s.mysql { status = record s.mysql.status { restart_candidate = candidate } };
      } in
      ground (
        arith,
        save_status_keeps_mysql env law s.mysql.namespace s.mysql.name t,
        save_status_writes env law readable s.mysql.namespace s.mysql.name t,
      )

  picked-ok :
      (collected : Collected Db) (s : State Db W) (candidate : Text)
      → (pick_with env collected.cmp_db collected.infos s).0 ≡ ok candidate
      → record_candidate env collected s
        ≡ save_candidate env candidate (pick_with env collected.cmp_db collected.infos s).1
  unfolding record_candidate
  picked-ok collected s candidate e = ground arith

  -- Where RetryOnConflict keeps its law and the object can be read: in a bootstrapped group without
  -- an online member, without a recorded candidate and with something collected, if the choice
  -- gives a pod, then no server is changed, and that pod is recorded in memory and in the last
  -- attempt to write the status.
  pub candidate_is_recorded :
      Readable env
      → (names : ResourceNames) (loaded : Loaded) (collected : Collected Db) (s : State Db W)
        (candidate : Text)
      → collected.any_online ≡ false
      → collected.infos ≢ []
      → (pick_with env collected.cmp_db collected.infos s).0 ≡ ok candidate
      → let t = (act_on env names loaded true [] collected s).1 in
        ChangesNothing s t
        × (t.mysql.status.restart_candidate ≡ candidate)
        × (last_written t.trace ≡ some t.mysql.status)
  unfolding act_on
  candidate_is_recorded readable names loaded collected s candidate offline some_info e =
      let t = (pick_with env collected.cmp_db collected.infos s).1 in
      ground (
        arith,
        candidate-ChangesNothing collected s,
        picked-ok collected s candidate e,
        saved readable candidate t,
      )

  act_bootstraps :
      (names : ResourceNames) (loaded : Loaded) (bootstrapped : Bool) (candidate : Text)
      (collected : Collected Db) (s : State Db W)
      → NoRepeat (map name_of loaded.pods)
      → (candidate ≡ []) ⊎ (bootstrapped ≡ true)
      → bootstraps (with_collected env names loaded bootstrapped candidate collected s).1.trace
        ≤ bootstraps s.trace + 1
  unfolding with_collected act_on
  act_bootstraps names loaded bootstrapped candidate collected s d c = ground (
    arith,
    candidate-ChangesNothing collected s,
    at_most_one_bootstrap env loaded.repl_pass names loaded.root_pass candidate law loaded.pods
        bootstrapped s d c,
  )

  consistent_cases :
      (status : MySqlStatus)
      → IsConsistent status
      → (status.restart_candidate ≡ []) ⊎ (status.group_replication_bootstrapped ≡ true)
  consistent_cases status h = ground arith

  act_pass :
      (names : ResourceNames) (loaded : Loaded) (s : State Db W)
      → IsConsistent s.mysql.status
      → NoRepeat (map name_of loaded.pods)
      → bootstraps (collect_and_act env names loaded s).1.trace ≤ bootstraps s.trace + 1
  unfolding collect_and_act
  act_pass names loaded s h d =
      let b = s.mysql.status.group_replication_bootstrapped in
      let r = s.mysql.status.restart_candidate in
      let collect = collect_group_info env names loaded.root_pass b r loaded.pods in
      let looks = collect-Looks env names loaded.root_pass b r loaded.pods s in
      bind_keeps (λ t. bootstraps t.trace ≤ bootstraps s.trace + 1) collect
        (with_collected env names loaded b r) s (omega (arith, looks.no_bootstraps))
        (λ c _. omega (
          arith,
          looks.no_bootstraps,
          act_bootstraps names loaded b r c (collect s).1 d (consistent_cases s.mysql.status h),
        ))

  load_facts :
      (names : ResourceNames) (s : State Db W)
      → let t = (load_secrets_and_pods env names s).1 in
        (bootstraps t.trace ≡ bootstraps s.trace) × (t.mysql ≡ s.mysql)
  unfolding load_secrets_and_pods
  load_facts names s = ground arith

  -- Where RetryOnConflict keeps its law and listed pods have different names, a whole pass over a
  -- consistent status attempts at most one bootstrap, whatever the servers and the API server
  -- answer.
  pub pass_bootstraps_once :
      ListsDistinct env
      → (names : ResourceNames) (s : State Db W) → IsConsistent s.mysql.status
      → bootstraps (reconcile_group_replication env names s).1.trace ≤ bootstraps s.trace + 1
  unfolding reconcile_group_replication
  pass_bootstraps_once distinct names s h =
      let first = load_facts names s in
      let t = (load_secrets_and_pods env names s).1 in
      bind_keeps (λ u. bootstraps u.trace ≤ bootstraps s.trace + 1)
        (load_secrets_and_pods env names) (collect_and_act env names) s (omega (arith, first.0))
        (λ loaded e. omega (
          arith,
          first.0,
          act_pass names loaded t (rw first.1 h) (load_distinct env distinct names s loaded e),
        ))
