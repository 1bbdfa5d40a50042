-- ===== src/Examples/Restart.antt =====
-- Runs of the theorems on the restart of a group, through the program's own client.
use yet_another_mysql_operat.Prelude.{◌≡◌, ◌≢◌, refl, sym, inl, true, false, [], map, some, arith}
use yet_another_mysql_operat.Prelude.Result.{ok}
use yet_another_mysql_operat.Prelude.Text.{Text, codes, text_eq, split, last_part}
use yet_another_mysql_operat.Prelude.Assoc.{get, elem}
use yet_another_mysql_operat.Prelude.Sort.Laws.{NoRepeat}
use yet_another_mysql_operat.Prelude.Decimal.{atoi, show_int}
use yet_another_mysql_operat.Api.{MySql}
use yet_another_mysql_operat.Controller.Objects.{Pod}
use yet_another_mysql_operat.Util.{root_user_env, replication_user_env}
use yet_another_mysql_operat.GrClient.Query
use yet_another_mysql_operat.GrClient.{in_group, is_online, gtid_sets, or_nothing_received}
use yet_another_mysql_operat.GrClient.Candidate.{
  pick_restart_candidate, first_superset, covers_all, superset,
}
use yet_another_mysql_operat.GrClient.Connect.{new_client, try_connect}
use yet_another_mysql_operat.GrClient.Sql.{Session, open_db, close_db, ping, query_row}
use yet_another_mysql_operat.Controller.Pods.{
  is_contactable, pod_ready, has_ready_condition, parse_ordinal, build_dsn, cluster_domain,
}
use yet_another_mysql_operat.Controller.Names.{build_resource_names}
use yet_another_mysql_operat.Controller.Collect.{collect_group_info, collect_pod, examine}
use yet_another_mysql_operat.Controller.SqlClient.{connect}
use yet_another_mysql_operat.Controller.Trace.{bootstraps, last_written}
use yet_another_mysql_operat.Controller.ReconcilePods.{join, choose_action}
use yet_another_mysql_operat.Controller.ReconcilePods.Bootstraps.{name_of}
use yet_another_mysql_operat.Controller.Env.{State, guarded, save_status}
use yet_another_mysql_operat.Controller.GroupReplication.{
  reconcile_group_replication, load_secrets_and_pods, collect_and_act, with_collected, act_on,
  record_candidate, save_candidate,
}
use yet_another_mysql_operat.Controller.Recovery.{is_ok, first_contactable, opening_in}
use yet_another_mysql_operat.Controller.Recovery.Passes.{Recovered, pass_recovers}
use yet_another_mysql_operat.Controller.Recovery.Protocol.{IsPicked, two_passes_recover}
use yet_another_mysql_operat.Controller.Recovery.Deadlock.{now, passed, other_choice_is_stuck}
use yet_another_mysql_operat.Examples.{object, two_pods, pod_named, names_of}
use yet_another_mysql_operat.Examples.Servers.{
  Group, env, up, loaded, answers, refuses, apart, law, supplies,
}

abbrev group_down : MySql → State Text (Session Text Group)
group_down m = record {
  world = record { world = record { online = false; bootstrapping = false }; sent = [] };
  mysql = m;
  trace = [];
}

abbrev first : Pod
first = pod_named (codes "db-0")

first_reached : first_contactable two_pods ≡ some first
unfolding is_contactable pod_ready has_ready_condition codes text_eq
first_reached = refl

distinct : NoRepeat (map name_of two_pods)
unfolding elem text_eq codes
distinct = (refl, (refl, tt))

abbrev dsn : Text → Text
dsn pod = (build_dsn (pod_named pod) (names_of true []) (object true []) (codes "r")).1

-- The server that has executed more than the other one
abbrev of_0 : Text
of_0 = dsn (codes "db-0")

abbrev of_1 : Text
of_1 = dsn (codes "db-1")

abbrev new_group : State Text (Session Text Group)
new_group = group_down (object false [])

new_opens : opening_in [] first new_group ≢ join
unfolding choose_action parse_ordinal split last_part atoi codes
new_opens e = cc e

pass_recovers_example :
    Recovered
      (env of_0)
      (law of_0)
      up
      (answers of_0)
      (apart of_0)
      (names_of true [])
      loaded
      (supplies of_0)
      first
      first_reached
      new_group
      (reconcile_group_replication (env of_0) (names_of true []) new_group)
pass_recovers_example =
    pass_recovers (env of_0) (law of_0) up (answers of_0) (apart of_0) (names_of true []) loaded
      (supplies of_0) first first_reached new_group refl refl distinct (inl refl) new_opens

abbrev awaiting : State Text (Session Text Group)
awaiting = group_down (object true [])

-- The first pass
abbrev after_first : Text → State Text (Session Text Group)
after_first ahead = (reconcile_group_replication (env ahead) (names_of true []) awaiting).1

picks_0 : (after_first of_0).mysql.status.restart_candidate ≡ codes "db-0"
unfolding reconcile_group_replication load_secrets_and_pods get text_eq root_user_env
    replication_user_env collect_and_act collect_group_info collect_pod is_contactable pod_ready
    connect new_client try_connect open_db close_db ping query_row Query.select_one
    Query.gtid_executed Query.received_set Query.own_state Query.gtid_subtract Query.local_state
    Query.online_member in_group is_online gtid_sets or_nothing_received guarded examine
    with_collected act_on record_candidate save_candidate save_status pick_restart_candidate
    first_superset covers_all superset codes build_dsn build_resource_names cluster_domain show_int
picks_0 = refl

picks_1 : (after_first of_1).mysql.status.restart_candidate ≡ codes "db-1"
unfolding reconcile_group_replication load_secrets_and_pods get text_eq root_user_env
    replication_user_env collect_and_act collect_group_info collect_pod is_contactable pod_ready
    connect new_client try_connect open_db close_db ping query_row Query.select_one
    Query.gtid_executed Query.received_set Query.own_state Query.gtid_subtract Query.local_state
    Query.online_member in_group is_online gtid_sets or_nothing_received guarded examine
    with_collected act_on record_candidate save_candidate save_status pick_restart_candidate
    first_superset covers_all superset codes build_dsn build_resource_names cluster_domain show_int
picks_1 = refl

first_named : first.name ≢ []
unfolding codes
first_named e = cc e

two_passes_recover_example :
    ((reconcile_group_replication (env of_0) (names_of true []) awaiting).0 ≡ ok tt)
    × IsPicked
        (env of_0)
        (law of_0)
        up
        (answers of_0)
        (apart of_0)
        (names_of true [])
        loaded
        (supplies of_0)
        (after_first of_0).mysql.status.restart_candidate
    × (last_written (after_first of_0).trace ≡ some (after_first of_0).mysql.status)
    × Recovered
        (env of_0)
        (law of_0)
        up
        (answers of_0)
        (apart of_0)
        (names_of true [])
        loaded
        (supplies of_0)
        first
        first_reached
        (after_first of_0)
        (reconcile_group_replication (env of_0) (names_of true []) (after_first of_0))
two_passes_recover_example =
    two_passes_recover (env of_0) (law of_0) up (answers of_0) (apart of_0) (names_of true [])
      loaded (supplies of_0) first first_reached awaiting refl refl distinct
      (after_first of_0).mysql (sym picks_0) first_named refl

-- The second pass, where the other server is ahead
abbrev after_second : State Text (Session Text Group)
after_second = (reconcile_group_replication (env of_1) (names_of true []) (after_first of_1)).1

other_named : (after_first of_1).mysql.status.restart_candidate ≢ []
unfolding codes
other_named e = ground (arith, e, picks_1)

not_chosen : first.name ≢ (after_first of_1).mysql.status.restart_candidate
unfolding codes
not_chosen e = ground (arith, e, picks_1)

other_choice_is_stuck_example :
    (up after_second.world ≡ false)
    × (bootstraps after_second.trace ≡ 0)
    × (is_ok (reconcile_group_replication (env of_1) (names_of true []) after_second).0 ≡ false)
other_choice_is_stuck_example =
    other_choice_is_stuck (env of_1) (law of_1) up (answers of_1) (apart of_1) (names_of true [])
      loaded (supplies of_1) (refuses of_1) first first_reached awaiting refl refl other_named
      not_chosen after_second (passed (after_first of_1) now)
