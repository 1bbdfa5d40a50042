-- ===== src/Examples/Whole.antt =====
-- Runs of the theorems on a whole reconciliation.
use yet_another_mysql_operat.Prelude.{◌≡◌, ◌≤◌, ◌⊎◌, refl, ℕ, false, [], some}
use yet_another_mysql_operat.Prelude.Result.{ok, err, plain, conflict, is_conflict}
use yet_another_mysql_operat.Prelude.Text.{Text, codes, text_eq}
use yet_another_mysql_operat.Prelude.Decimal.{pos, ℤ}
use yet_another_mysql_operat.Prelude.Assoc.{elem}
use yet_another_mysql_operat.Controller.Env.{Env, State}
use yet_another_mysql_operat.Controller.Retry.{IsRetry}
use yet_another_mysql_operat.Controller.Trace.{bootstraps, status_writes}
use yet_another_mysql_operat.Controller.ReconcilePods.Clients.{Balanced}
use yet_another_mysql_operat.Controller.GroupReplication.Decisions.{ListsDistinct}
use yet_another_mysql_operat.Controller.StatefulSet.{StatefulSet}
use yet_another_mysql_operat.Controller.Objects.{named}
use yet_another_mysql_operat.Controller.Stages.{Cluster, empty_template, reconcile_root_secret}
use yet_another_mysql_operat.Controller.Reconcile.{
  reconcile, requeue, reconcile_object, stage, handle_reconcile_error,
}
use yet_another_mysql_operat.Controller.Reconcile.Failure.{
  IsReported, failure-IsReported, requeue_writes_no_status,
}
use yet_another_mysql_operat.Controller.Reconcile.Effects.{
  NeverReady, StoredConsistent, LeavesServers, reconcile-Balanced, reconcile-bootstraps_once,
  group_replication_waits,
}
use yet_another_mysql_operat.Controller.GroupReplication.OneClient.{NoneOpen}
use yet_another_mysql_operat.Controller.Reconcile.OneClient.{reconcile-NoneOpen}
use yet_another_mysql_operat.Examples.{
  object, two_pods, gr_client, env_of, retries_once, at_start, cluster_with,
}

abbrev set_with : ℤ → StatefulSet Text
set_with ready = record {
  meta = named (codes "db") (codes "prod");
  replicas = some (pos 2);
  service_name = [];
  match_labels = [];
  template = empty_template;
  volume_claim_templates = [];
  ready_replicas = ready;
}

abbrev ready_cluster : Cluster ℕ Text ℕ
ready_cluster = cluster_with (ok tt) (ok (set_with (pos 2)))

abbrev waiting_cluster : Cluster ℕ Text ℕ
waiting_cluster = cluster_with (ok tt) (ok (set_with (pos 1)))

abbrev env : Env ℕ ℕ
env = env_of (gr_client false false (ok tt)) (ok (object false []))

retries : IsRetry env
retries = retries_once (gr_client false false (ok tt)) (ok (object false []))

abbrev start : State ℕ ℕ
start = at_start (object false [])

reconcile-Balanced_example :
    Balanced start (reconcile env ready_cluster (codes "prod") (codes "db") start).1
reconcile-Balanced_example =
    reconcile-Balanced env ready_cluster retries (codes "prod") (codes "db") start

distinct : ListsDistinct env
unfolding elem text_eq codes
distinct namespace app w pods e = let same : pods ≡ two_pods = cc in rw same (refl, (refl, tt))

stored : StoredConsistent env ready_cluster retries
stored namespace name w m e = let same : m ≡ object false [] = cc in rw same refl

reconcile-bootstraps_once_example :
    bootstraps (reconcile env ready_cluster (codes "prod") (codes "db") start).1.trace ≤ 1
reconcile-bootstraps_once_example =
    reconcile-bootstraps_once env ready_cluster retries distinct stored (codes "prod") (codes "db")
      start refl

never : NeverReady env waiting_cluster retries
never namespace name w sts wanted e = let same : sts ≡ set_with (pos 1) = cc in rw same refl

group_replication_waits_example :
    LeavesServers env waiting_cluster retries start
      (reconcile env waiting_cluster (codes "prod") (codes "db") start).1
group_replication_waits_example =
    group_replication_waits env waiting_cluster retries never (codes "prod") (codes "db") start

abbrev failing_cluster : Cluster ℕ Text ℕ
failing_cluster = cluster_with (err (plain (codes "denied"))) (ok (set_with (pos 2)))

fails :
    (reconcile env failing_cluster (codes "prod") (codes "db") start).0
    ≡ err (plain (codes "denied"))
unfolding reconcile reconcile_object stage reconcile_root_secret handle_reconcile_error is_conflict
fails = refl

failure-IsReported_example :
    (ok (object false []) ≡ err (plain (codes "denied")))
    ⊎ IsReported env failing_cluster
        (reconcile env failing_cluster (codes "prod") (codes "db") start).1
failure-IsReported_example =
    failure-IsReported env failing_cluster (codes "prod") (codes "db") start
      (plain (codes "denied")) fails

abbrev conflicting_cluster : Cluster ℕ Text ℕ
conflicting_cluster = cluster_with (err (conflict (codes "changed"))) (ok (set_with (pos 2)))

conflicts : (reconcile env conflicting_cluster (codes "prod") (codes "db") start).0 ≡ ok requeue
unfolding reconcile reconcile_object stage reconcile_root_secret handle_reconcile_error is_conflict
conflicts = refl

requeue_writes_no_status_example :
    status_writes (reconcile env conflicting_cluster (codes "prod") (codes "db") start).1.trace ≡ 0
requeue_writes_no_status_example =
    requeue_writes_no_status env conflicting_cluster (codes "prod") (codes "db") start conflicts

reconcile-NoneOpen_example :
    NoneOpen (reconcile env ready_cluster (codes "prod") (codes "db") start).1
reconcile-NoneOpen_example =
    reconcile-NoneOpen env ready_cluster retries (codes "prod") (codes "db") start (tt, refl)
