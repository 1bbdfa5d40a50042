-- ===== src/Examples/Sql.antt =====
-- A run of the theorem on the handles of a pass, through the SQL client.
use yet_another_mysql_operat.Prelude.{◌≡◌, ◌+◌, refl, ◌||◌, ℕ, true, [], if◌then◌else◌}
use yet_another_mysql_operat.Prelude.Result.{ok}
use yet_another_mysql_operat.Prelude.Text.{codes, text_eq}
use yet_another_mysql_operat.GrClient.Query
use yet_another_mysql_operat.Prelude.Assoc.{get}
use yet_another_mysql_operat.Util.{root_user_env, replication_user_env}
use yet_another_mysql_operat.GrClient.{in_group, is_online, gtid_sets, or_nothing_received}
use yet_another_mysql_operat.GrClient.Candidate.{
  pick_restart_candidate, first_superset, covers_all, superset,
}
use yet_another_mysql_operat.GrClient.Connect.{new_client, try_connect}
use yet_another_mysql_operat.GrClient.Sql.{SqlOps, Session, open_db, close_db, ping, query_row}
use yet_another_mysql_operat.Controller.Pods.{is_contactable, pod_ready}
use yet_another_mysql_operat.Controller.Collect.{collect_group_info, collect_pod, examine}
use yet_another_mysql_operat.GrClient.Connect.Laws.{opens, closes}
use yet_another_mysql_operat.Controller.Env.{Env, State, guarded, save_status}
use yet_another_mysql_operat.Controller.SqlClient.{client_ops, connect}
use yet_another_mysql_operat.Controller.SqlClient.Accounts.{client_ops-Accounts}
use yet_another_mysql_operat.Controller.Retry.{IsRetry, last}
use yet_another_mysql_operat.Controller.GroupReplication.{
  reconcile_group_replication, load_secrets_and_pods, collect_and_act, with_collected, act_on,
  record_candidate, save_candidate,
}
use yet_another_mysql_operat.Controller.GroupReplication.SqlHandles.{
  KubeIsQuiet, pass_closes_handles,
}
use yet_another_mysql_operat.Examples.{
  object, two_pods, password_secret, server, subtract_args, fresh, names_of,
}

-- A server that has executed some transactions and is in no group.
abbrev sql : SqlOps ℕ ℕ
sql = record (server (ok tt) (ok tt)) {
  query_row = λ db q args w. (
    if text_eq q Query.gtid_executed || text_eq q Query.select_one
        then ok (codes "u:1-5")
        else subtract_args args,
    w,
  );
}

abbrev env : Env ℕ (Session ℕ ℕ)
env = record {
  gr = client_ops sql 2;
  kube = record {
    get_mysql_object = λ namespace name w. (ok (object true []), w);
    get_secret = λ namespace name w. (ok password_secret, w);
    list_pods = λ namespace app w. (ok two_pods, w);
    update_status = λ m w. (ok tt, w);
  };
  retry = λ f. f;
}

law : IsRetry env
law = record { runs = λ f s. last s refl }

quiet : KubeIsQuiet env
quiet = record {
  gets = λ namespace name s. (refl, refl);
  reads = λ namespace name s. (refl, refl);
  lists = λ namespace app s. (refl, refl);
  updates = λ m s. (refl, refl);
}

abbrev start : State ℕ (Session ℕ ℕ)
start = record { world = fresh 9; mysql = object true []; trace = [] }

succeeds : (reconcile_group_replication env (names_of true []) start).0 ≡ ok tt
unfolding reconcile_group_replication load_secrets_and_pods get text_eq root_user_env
    replication_user_env collect_and_act collect_group_info collect_pod is_contactable pod_ready
    connect new_client try_connect open_db close_db ping query_row Query.select_one
    Query.gtid_executed Query.received_set Query.own_state Query.gtid_subtract in_group is_online
    gtid_sets or_nothing_received guarded examine with_collected act_on record_candidate
    save_candidate save_status pick_restart_candidate first_superset covers_all superset codes
succeeds = refl

pass_closes_handles_example :
    let t = (reconcile_group_replication env (names_of true []) start).1 in
    opens t.world.sent + 0 ≡ closes t.world.sent + 0
pass_closes_handles_example =
    pass_closes_handles env (client_ops-Accounts sql 2) quiet (names_of true []) law start refl
      succeeds
