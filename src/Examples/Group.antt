-- ===== src/Examples/Group.antt =====
-- Runs of the theorems on one pass over the pods.
use yet_another_mysql_operat.Prelude.{◌≡◌, ◌⊎◌, refl, ℕ, true, false, [], ◌++◌, some}
use yet_another_mysql_operat.Prelude.Result.{ok, err, Error, wrap, plain, Exec}
use yet_another_mysql_operat.Prelude.Text.{codes, text_eq, last_part, split}
use yet_another_mysql_operat.Prelude.Decimal.{atoi}
use yet_another_mysql_operat.Controller.Env.{Env, State, guarded, save_status}
use yet_another_mysql_operat.Controller.Trace.{bootstraps, status_writes, last_written}
use yet_another_mysql_operat.Controller.ReconcilePods.{
  reconcile_pods, pods_loop, reconcile_pod, choose_action,
}
use yet_another_mysql_operat.Controller.Pods.{
  is_contactable, pod_ready, has_ready_condition, build_dsn, parse_ordinal,
}
use yet_another_mysql_operat.Controller.Retry.{last}
use yet_another_mysql_operat.Controller.ReconcilePods.Safety.{
  Untouched, online_group_is_kept, healthy_group-Untouched,
}
use yet_another_mysql_operat.Controller.ReconcilePods.Status.{
  Advances, reconcile_pods-Advances, reconcile_pods_saves, failed_pass_saves_nothing,
}
use yet_another_mysql_operat.Examples.{
  object, two_pods, gr_client, env_of, retries_once, at_start, names_of, refused,
}

-- No server is in the group, and each accepts what it is told.
abbrev offline : Env ℕ ℕ
offline = env_of (gr_client false false (ok tt)) (ok (object false []))

abbrev pass : Env ℕ ℕ → Exec (State ℕ ℕ) (Unit {0})
pass env = reconcile_pods env (codes "s") (names_of false []) (codes "r") [] two_pods false

abbrev start : State ℕ ℕ
start = at_start (object false [])

-- Another member is online.
abbrev joining : Env ℕ ℕ
joining = env_of (gr_client false true (ok tt)) (ok (object false []))

online_group_is_kept_example : bootstraps (pass joining start).1.trace ≡ 0
online_group_is_kept_example =
    online_group_is_kept joining (codes "s") (names_of false []) (codes "r") []
      (retries_once (gr_client false true (ok tt)) (ok (object false []))) (λ client w. refl)
      two_pods false start

abbrev healthy : Env ℕ ℕ
healthy = env_of (gr_client true true (ok tt)) (ok (object false []))

healthy_group-Untouched_example : Untouched start (pass healthy start).1
healthy_group-Untouched_example =
    healthy_group-Untouched healthy (codes "s") (names_of false []) (codes "r") []
      (retries_once (gr_client true true (ok tt)) (ok (object false []))) (λ client w. refl)
      two_pods false start

reconcile_pods-Advances_example : Advances start.mysql (pass offline start).1.mysql
reconcile_pods-Advances_example =
    reconcile_pods-Advances offline
      (retries_once (gr_client false false (ok tt)) (ok (object false []))) (codes "s")
      (names_of false []) (codes "r") [] two_pods false start

pass_succeeds : (pass offline start).0 ≡ ok tt
unfolding reconcile_pods pods_loop reconcile_pod is_contactable pod_ready has_ready_condition
    text_eq codes guarded choose_action build_dsn parse_ordinal atoi last_part split save_status
pass_succeeds = refl

reconcile_pods_saves_example :
    ((pass offline start).1.mysql ≡ start.mysql)
    ⊎ (last_written (pass offline start).1.trace ≡ some (pass offline start).1.mysql.status)
reconcile_pods_saves_example =
    reconcile_pods_saves offline
      (retries_once (gr_client false false (ok tt)) (ok (object false []))) (codes "s")
      (names_of false []) (codes "r") [] (λ namespace name w. (object false [], refl)) two_pods
      false start pass_succeeds

-- The first pod bootstraps and the second cannot join.
abbrev no_join : Env ℕ ℕ
no_join =
    env_of
      (record {
        new_gr_client = λ dsn w. (ok w, w);
        close = λ db w. (ok tt, w);
        self_online = λ db w. (ok false, w);
        gtid_sets = λ db w. (ok (record { executed = []; certified = [] }), w);
        ensure_replication_user = λ db pw w. (ok tt, w);
        any_online_member = λ db w. (ok false, w);
        bootstrap = λ db pw w. (ok tt, w);
        join = λ db pw w. (refused, w);
        open_compare = λ dsn w. (ok w, w);
        close_compare = λ db w. (ok tt, w);
        pick_restart_candidate = λ db infos w. (ok [], w);
      })
      (ok (object false []))

abbrev join_error : Error
join_error = wrap (codes "join " ++ codes "db-1") (plain (codes "refused"))

second_fails : (pass no_join start).0 ≡ err join_error
unfolding reconcile_pods pods_loop reconcile_pod is_contactable pod_ready has_ready_condition
    text_eq codes guarded choose_action build_dsn parse_ordinal atoi last_part split
second_fails = refl

failed_pass_saves_nothing_example : status_writes (pass no_join start).1.trace ≡ 0
failed_pass_saves_nothing_example =
    failed_pass_saves_nothing no_join (record { runs = λ f s. last s refl }) (codes "s")
      (names_of false []) (codes "r") [] two_pods false start join_error second_fails
