-- ===== src/Controller/GroupReplication/SqlHandles.antt =====
-- A pass over a client interface that keeps its accounts, as the SQL client does: the handles of
-- `database/sql` that it leaves open are those that the trace has open.
use yet_another_mysql_operat.Prelude.{◌≡◌, ◌+◌, Bool, arith}
use yet_another_mysql_operat.Prelude.Result.{ok}
use yet_another_mysql_operat.Prelude.Text.{Text}
use yet_another_mysql_operat.GrClient.Sql.{Session}
use yet_another_mysql_operat.GrClient.Connect.Laws.{opens, closes}
use yet_another_mysql_operat.Api.{MySql, MySqlStatus}
use yet_another_mysql_operat.Controller.Objects.{Pod}
use yet_another_mysql_operat.Controller.Names.{ResourceNames}
use yet_another_mysql_operat.Controller.Env.{Env, State, release, guarded, write_status}
use yet_another_mysql_operat.Controller.SqlClient.Accounts.{IsQuiet, Accounts}
use yet_another_mysql_operat.Controller.Retry.{IsRetry}
use yet_another_mysql_operat.Controller.Trace.{
  clients_opened, clients_closed, compares_opened, compares_closed,
}
use yet_another_mysql_operat.Controller.Collect.{Collected, collect_pod, examine}
use yet_another_mysql_operat.Controller.ReconcilePods.{Progress, reconcile_pod}
use yet_another_mysql_operat.Controller.GroupReplication.{reconcile_group_replication}
use yet_another_mysql_operat.Controller.GroupReplication.Pass.{pass-Balanced, pass_closes_compares}
use yet_another_mysql_operat.Controller.GroupReplication.Rule.{PartsKeep, pass_keeps}

-- As many handles are open as clients and handles for comparisons.
abbrev pub Mirrors : {Db W : Type 0} → State Db (Session Db W) → Type 0
Mirrors s =
    opens s.world.sent + (clients_closed s.trace + compares_closed s.trace)
    ≡ closes s.world.sent + (clients_opened s.trace + compares_opened s.trace)

-- The Kubernetes client uses no database handle.
pub record KubeIsQuiet {Db W : Type 0} (env : Env Db (Session Db W)) : Type 0 where
  pub gets :
      (namespace name : Text) (s : Session Db W)
      → IsQuiet s (env.kube.get_mysql_object namespace name s).1
  pub reads :
      (namespace name : Text) (s : Session Db W)
      → IsQuiet s (env.kube.get_secret namespace name s).1
  pub lists :
      (namespace app : Text) (s : Session Db W) → IsQuiet s (env.kube.list_pods namespace app s).1
  pub updates : (m : MySql) (s : Session Db W) → IsQuiet s (env.kube.update_status m s).1

module _ {Db W : Type 0} (env : Env Db (Session Db W)) (accounts : Accounts env.gr)
    (quiet : KubeIsQuiet env) (names : ResourceNames) where
  visit-Mirrors :
      (repl_pass root_pass candidate : Text) (pod : Pod) (p : Progress)
      (s : State Db (Session Db W))
      → Mirrors s
      → Mirrors (reconcile_pod env repl_pass names root_pass candidate pod p s).1
  unfolding reconcile_pod guarded release
  visit-Mirrors repl_pass root_pass candidate pod p s h = grind (
    arith, h, accounts.new_gr_client, accounts.close, accounts.self_online,
    accounts.ensure_replication_user, accounts.any_online_member, accounts.bootstrap, accounts.join,
  )

  look-Mirrors :
      (root_pass : Text) (b : Bool) (candidate : Text) (pod : Pod) (acc : Collected Db)
      (s : State Db (Session Db W))
      → Mirrors s
      → Mirrors (collect_pod env names root_pass b candidate pod acc s).1
  unfolding collect_pod examine guarded release
  look-Mirrors root_pass b candidate pod acc s h = grind (
    arith, h, accounts.new_gr_client, accounts.close, accounts.self_online, accounts.gtid_sets,
    accounts.open_compare,
  )

  write-Mirrors :
      (namespace name : Text) (desired : MySqlStatus) (s : State Db (Session Db W))
      → Mirrors s
      → Mirrors (write_status env namespace name desired s).1
  unfolding write_status
  write-Mirrors namespace name desired s h = grind (arith, h, quiet.gets, quiet.updates)

  parts-Mirror : PartsKeep env names Mirrors
  parts-Mirror = record {
    reads = λ namespace name s h. omega (arith, h, quiet.reads namespace name s.world);
    lists = λ namespace app s h. omega (arith, h, quiet.lists namespace app s.world);
    sets = λ status s h. h;
    collects = look-Mirrors;
    visits = visit-Mirrors;
    writes = write-Mirrors;
    picks = λ db infos s h. omega (arith, h, accounts.pick_restart_candidate db infos s.world);
    ends = λ db s h. omega (arith, h, accounts.close_compare db s.world);
  }

  -- Where RetryOnConflict keeps its law, the client interface keeps its accounts, as the SQL client
  -- does, and the Kubernetes client uses no database handle: a pass that succeeds leaves as many
  -- handles of `database/sql` open as were open before, clients and the handle for comparisons
  -- alike.
  pub pass_closes_handles :
      IsRetry env
      → (s : State Db (Session Db W)) → Mirrors s
      → (reconcile_group_replication env names s).0 ≡ ok tt
      → let t = (reconcile_group_replication env names s).1 in
        opens t.world.sent + closes s.world.sent ≡ closes t.world.sent + opens s.world.sent
  pass_closes_handles law s h e = omega (
    arith,
    h,
    pass_keeps env law names Mirrors parts-Mirror s h,
    pass-Balanced env law names s,
    pass_closes_compares env law names s e,
  )
