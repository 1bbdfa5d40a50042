-- ===== src/Examples/Servers.antt =====
-- A small group of servers behind `database/sql`, through the program's own client: the laws that the
-- theorems on a restart rely on.
use yet_another_mysql_operat.Prelude.{
  ◌≡◌, refl, Bool, true, false, ◌||◌, List, [], ◌∷◌, if◌then◌else◌, arith,
}
use yet_another_mysql_operat.Prelude.Result.{Result, ok, err, mysql_error, no_rows}
use yet_another_mysql_operat.Prelude.Text.{Text, codes, text_eq, contains_byte}
use yet_another_mysql_operat.GrClient.Query
use yet_another_mysql_operat.Prelude.Assoc.{get}
use yet_another_mysql_operat.Util.{root_user_env, replication_user_env}
use yet_another_mysql_operat.Controller.Retry.{IsRetry, last}
use yet_another_mysql_operat.Controller.GroupReplication.{Loaded, is_nil}
use yet_another_mysql_operat.Controller.Recovery.Looking.{Supplies}
use yet_another_mysql_operat.GrClient.Candidate.Laws.{Subtracts, pick-IsChoice}
use yet_another_mysql_operat.GrClient.Candidate.{
  GtidInfo, superset, covers_all, first_superset, pick_restart_candidate,
}
use yet_another_mysql_operat.GrClient.Sql.{
  SqlOps, Session, open_db, close_db, ping, query_row, exec,
}
use yet_another_mysql_operat.GrClient.Connect.{new_client, try_connect, wait_for_mysql}
use yet_another_mysql_operat.GrClient.{
  in_group, is_online, any_online_member, found_row, ensure_replication_user, bootstrap_group,
  run_statements, join_group, joined, local_state_desc, is_still_joining, GtidSets, gtid_sets,
  or_nothing_received,
}
use yet_another_mysql_operat.Controller.Env.{Env}
use yet_another_mysql_operat.Controller.SqlClient.{client_ops, connect}
use yet_another_mysql_operat.Controller.Recovery.{Answers, Refuses, Apart, is_ok}
use yet_another_mysql_operat.Examples.{object, two_pods, password_secret, names_of}

-- Whether a member is online, and whether a server has been told to bootstrap the group.
pub record Group : Type 0 where
  pub online : Bool
  pub bootstrapping : Bool

-- A handle is the data source name of its server. The server `ahead` has executed more than the others.
module _ (ahead : Text) where
  abbrev executed_on : Text → Text
  executed_on db = if text_eq db ahead then codes "u:1-9" else codes "u:1-5"

  -- Nothing is left of a set if it is the same as the other, or the other is the larger one.
  abbrev difference : List Text → Result Text
  difference (a ∷ b ∷ []) = ok (if text_eq a b || text_eq b (codes "u:1-9") then [] else a)
  difference _ = ok []

  abbrev answer : Text → Text → List Text → Group → Result Text
  answer db q args w =
      if text_eq q Query.gtid_subtract
      then difference args
      else if text_eq q Query.gtid_executed
      then ok (executed_on db)
      else if text_eq q Query.local_state
      then ok (codes "OFFLINE")
      else if text_eq q Query.online_member
      then (if w.bootstrapping || w.online then ok (codes "ONLINE") else err no_rows)
      else if text_eq q Query.own_state
      then err no_rows
      else ok []

  -- A server starts if it finds a member or is to bootstrap the group; it fails with the error 3092
  -- otherwise.
  abbrev run : Text → Group → Result (Unit {0}) × Group
  run q w =
      if text_eq q Query.bootstrap_on
      then (ok tt, record w { bootstrapping = true })
      else if text_eq q Query.bootstrap_off
      then (ok tt, record { online = w.bootstrapping || w.online; bootstrapping = false })
      else if text_eq q Query.start_group_replication
      then (if w.bootstrapping || w.online
          then (ok tt, record w { online = true })
          else (err (mysql_error 3092 []), w))
      else (ok tt, w)

  abbrev pub sql : SqlOps Text Group
  sql = record {
    open_db = λ dsn w. (ok dsn, w);
    ping = λ db w. (ok tt, w);
    query_row = λ db q args w. (answer db q args w, w);
    exec = λ db q args w. run q w;
    close_db = λ db w. (ok tt, w);
    wait_tick = λ tick w. (ok tt, w);
  }

  abbrev pub env : Env Text (Session Text Group)
  env = record {
    gr = client_ops sql 1;
    kube = record {
      get_mysql_object = λ namespace name s. (ok (object true []), s);
      get_secret = λ namespace name s. (ok password_secret, s);
      list_pods = λ namespace app s. (ok two_pods, s);
      update_status = λ m s. (ok tt, s);
    };
    retry = λ f. f;
  }

abbrev pub up : Session Text Group → Bool
up s = s.world.bootstrapping || s.world.online

abbrev pub loaded : Loaded
loaded = record { root_pass = codes "r"; repl_pass = codes "s"; pods = two_pods }

module _ (ahead : Text) where
  pub answers : Answers (env ahead) up
  unfolding connect new_client try_connect wait_for_mysql open_db close_db ping query_row exec
      in_group is_online any_online_member found_row ensure_replication_user bootstrap_group
      run_statements join_group joined local_state_desc codes text_eq contains_byte
      Query.gtid_subtract Query.gtid_executed Query.local_state Query.online_member Query.own_state
      Query.replication_user Query.select_one Query.bootstrap_on Query.bootstrap_off
      Query.start_group_replication Query.bootstrap_statements
  answers = record {
    connects = λ dsn w. refl;
    connects_up = λ dsn w. refl;
    closes_up = λ db w. refl;
    self = λ db w. refl;
    self_up = λ db w. refl;
    self_down = λ db w h. refl;
    any = λ db w. ground arith;
    any_up = λ db w. ground arith;
    any_down = λ db w h. rw h refl;
    user = λ db pw w. refl;
    user_up = λ db pw w. refl;
    bootstraps = λ db pw w. refl;
    bootstraps_up = λ db pw w. refl;
    joins = λ db pw w h. rw h refl;
    joins_up = λ db pw w. ground arith;
  }

  pub refuses : Refuses (env ahead) up
  unfolding query_row exec join_group joined is_still_joining local_state_desc codes text_eq
      Query.gtid_subtract Query.gtid_executed Query.local_state Query.bootstrap_on
      Query.bootstrap_off Query.start_group_replication
  refuses = record { no_join = λ db pw w h. rw h refl }

  pub apart : Apart (env ahead) up
  apart = record {
    reads = λ namespace name w. (object true [], refl);
    reads_up = λ namespace name w. refl;
    writes_up = λ m w. refl;
  }

  pub law : IsRetry (env ahead)
  law = record { runs = λ f s. last s refl }

  abbrev rest_of : Text → Text → Text
  rest_of a b = if text_eq a b || text_eq b (codes "u:1-9") then [] else a

  computes : (db : Text) → Subtracts rest_of (sql ahead) db
  unfolding text_eq Query.gtid_subtract codes
  computes db a b w = refl

  superset_keeps :
      (db : Text) (c o : GtidSets) (s : Session Text Group)
      → (superset (sql ahead) db c o s).1.world ≡ s.world
  unfolding superset query_row text_eq Query.gtid_subtract codes
  superset_keeps db c o s = refl

  covers_all_keeps :
      (db : Text) (a : GtidInfo) (bs : List GtidInfo) (s : Session Text Group)
      → (covers_all (sql ahead) db a bs s).1.world ≡ s.world
  unfolding covers_all
  covers_all_keeps db a [] s = refl
  covers_all_keeps db a (b ∷ bs) s = ground (
    arith,
    covers_all_keeps db a bs s,
    superset_keeps db a.sets b.sets s,
    covers_all_keeps db a bs (superset (sql ahead) db a.sets b.sets s).1,
  )

  first_superset_keeps :
      (db : Text) (infos rest : List GtidInfo) (s : Session Text Group)
      → (first_superset (sql ahead) db infos rest s).1.world ≡ s.world
  unfolding first_superset
  first_superset_keeps db infos [] s = refl
  first_superset_keeps db infos (a ∷ rest) s = ground (
    arith,
    covers_all_keeps db a infos s,
    first_superset_keeps db infos rest (covers_all (sql ahead) db a infos s).1,
  )

  picks_keep :
      (db : Text) (infos : List GtidInfo) (s : Session Text Group)
      → (pick_restart_candidate (sql ahead) db infos s).1.world ≡ s.world
  unfolding pick_restart_candidate
  picks_keep db [] s = refl
  picks_keep db (i ∷ is) s = ground (arith, first_superset_keeps db (i ∷ is) (i ∷ is) s)

  picks :
      (db : Text) (infos : List GtidInfo) (s : Session Text Group)
      → is_nil infos ≡ false
      → is_ok (pick_restart_candidate (sql ahead) db infos s).0 ≡ true
  picks db [] s n = ground (arith, n)
  picks db (i ∷ is) s n =
      let (pod, picked, _) =
        pick-IsChoice rest_of (sql ahead) db (computes db) (i ∷ is) s (λ e. cc) in
      rw picked refl

  pub supplies : Supplies (env ahead) up (names_of true []) loaded
  unfolding get root_user_env replication_user_env codes text_eq gtid_sets or_nothing_received
      query_row open_db close_db Query.gtid_executed Query.gtid_subtract Query.received_set
      Query.local_state Query.online_member Query.own_state
  supplies = record {
    secret_of = λ name. password_secret;
    secrets = λ namespace name w. refl;
    secrets_up = λ namespace name w. refl;
    root_password = refl;
    replication_password = refl;
    lists = λ namespace app w. refl;
    lists_up = λ namespace app w. refl;
    sets = λ db w. refl;
    sets_up = λ db w. refl;
    compares = λ dsn w. refl;
    compares_up = λ dsn w. refl;
    ends_up = λ db w. refl;
    picks = picks;
    picks_up = λ db infos s. rw (picks_keep db infos s) refl;
  }
