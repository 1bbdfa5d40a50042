-- ===== src/Examples/Passes.antt =====
-- Runs of the theorems on a whole group replication pass.
use yet_another_mysql_operat.Prelude.{◌≡◌, ◌+◌, refl, ℕ, zero, true, false, [], ◌∷◌, ◌++◌, some}
use yet_another_mysql_operat.Prelude.Result.{ok, err, Error, wrap, plain, Exec}
use yet_another_mysql_operat.Prelude.Text.{codes, text_eq}
use yet_another_mysql_operat.Prelude.Decimal.{pos}
use yet_another_mysql_operat.GrClient.{GtidSets}
use yet_another_mysql_operat.Controller.Env.{Env, State, guarded}
use yet_another_mysql_operat.Controller.Retry.{IsRetry}
use yet_another_mysql_operat.Controller.Trace.{compares_opened, compares_closed, last_written}
use yet_another_mysql_operat.Controller.Collect.{
  Collected, collect_group_info, collect_pod, examine,
}
use yet_another_mysql_operat.Controller.Pods.{is_contactable, pod_ready}
use yet_another_mysql_operat.Controller.GroupReplication.{
  Loaded, collect_and_act, act_on, pick_with,
}
use yet_another_mysql_operat.Controller.GroupReplication.Pass.{collection, failed_collection_leaks}
use yet_another_mysql_operat.Controller.GroupReplication.Decisions.{
  ChangesNothing, candidate_is_recorded,
}
use yet_another_mysql_operat.Examples.{
  object, two_pods, gr_client, env_of, retries_once, at_start, names_of,
}

-- A bootstrapped group, all of whose servers are offline.
abbrev offline : Env ℕ ℕ
offline = env_of (gr_client false false (ok tt)) (ok (object true []))

offline_retries : IsRetry offline
offline_retries = retries_once (gr_client false false (ok tt)) (ok (object true []))

abbrev start : State ℕ ℕ
start = at_start (object true [])

abbrev loaded : Loaded
loaded = record { root_pass = codes "r"; repl_pass = codes "s"; pods = two_pods }

abbrev collected : Collected ℕ
collected = record {
  any_online = false;
  infos =
      record {
        pod = codes "db-1";
        ordinal = pos 1;
        sets = record { executed = codes "u:1-5"; certified = [] };
      }
      ∷ [];
  cmp_db = some 5;
}

candidate_is_recorded_example :
    let t = (act_on offline (names_of true []) loaded true [] collected start).1 in
    ChangesNothing start t
    × (t.mysql.status.restart_candidate ≡ codes "db-1")
    × (last_written t.trace ≡ some t.mysql.status)
candidate_is_recorded_example =
    candidate_is_recorded offline offline_retries (λ namespace name w. (object true [], refl))
      (names_of true []) loaded collected start (codes "db-1") refl (λ e. cc)
      (unfold pick_with in refl)

abbrev sets_of : ℕ → Exec ℕ GtidSets
sets_of zero w = (ok (record { executed = codes "u:1-5"; certified = [] }), w)
sets_of client w = (err (plain (codes "refused")), w)

-- The sets of the second client cannot be read.
abbrev half : Env ℕ ℕ
half = record {
  gr = record {
    new_gr_client = λ dsn w. (ok w, w + 1);
    close = λ db w. (ok tt, w);
    self_online = λ db w. (ok false, w);
    gtid_sets = sets_of;
    ensure_replication_user = λ db pw w. (ok tt, w);
    any_online_member = λ db w. (ok false, w);
    bootstrap = λ db pw w. (ok tt, w);
    join = λ db pw w. (ok tt, w);
    open_compare = λ dsn w. (ok 9, w);
    close_compare = λ db w. (ok tt, w);
    pick_restart_candidate = λ db infos w. (ok [], w);
  };
  kube = offline.kube;
  retry = λ f. f;
}

abbrev sets_error : Error
sets_error = wrap (codes "gtid sets " ++ codes "db-1") (plain (codes "refused"))

second_fails : (collection half (names_of true []) loaded start start).0 ≡ err sets_error
unfolding collect_group_info collect_pod is_contactable pod_ready text_eq codes guarded examine
second_fails = refl

failed_collection_leaks_example :
    let t = (collect_and_act half (names_of true []) loaded start).1 in
    ((collect_and_act half (names_of true []) loaded start).0 ≡ err sets_error)
    × (compares_opened t.trace
        ≡ compares_opened (collection half (names_of true []) loaded start start).1.trace)
    × (compares_closed t.trace ≡ 0)
failed_collection_leaks_example =
    failed_collection_leaks half (names_of true []) loaded start sets_error second_fails
