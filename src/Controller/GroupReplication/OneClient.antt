-- ===== src/Controller/GroupReplication/OneClient.antt =====
-- The controller has at most one database client open at a time.
use yet_another_mysql_operat.Prelude.{◌≡◌, ◌≤◌, ◌+◌, Bool, List, [], ◌∷◌, arith}
use yet_another_mysql_operat.Prelude.Text.{Text}
use yet_another_mysql_operat.Api.{MySqlStatus}
use yet_another_mysql_operat.Controller.Objects.{Pod}
use yet_another_mysql_operat.Controller.Names.{ResourceNames}
use yet_another_mysql_operat.Controller.Env.{Env, State, Event, release, guarded, write_status}
use yet_another_mysql_operat.Controller.Retry.{IsRetry}
use yet_another_mysql_operat.Controller.Trace.{clients_opened, clients_closed}
use yet_another_mysql_operat.Controller.Collect.{Collected, collect_pod, examine}
use yet_another_mysql_operat.Controller.ReconcilePods.{Progress, reconcile_pod}
use yet_another_mysql_operat.Controller.GroupReplication.{reconcile_group_replication}
use yet_another_mysql_operat.Controller.GroupReplication.Rule.{PartsKeep, pass_keeps}

-- At every moment of the trace at most one of the clients that were opened has not been closed.
abbrev pub OneAtATime : {Db : Type 0} → List (Event Db) → Type 0
OneAtATime [] = Unit
OneAtATime (e ∷ t) = (clients_opened (e ∷ t) ≤ clients_closed (e ∷ t) + 1) × OneAtATime t

-- So it was up to now, and now none is open.
abbrev pub NoneOpen : {Db W : Type 0} → State Db W → Type 0
NoneOpen s = OneAtATime s.trace × (clients_opened s.trace ≡ clients_closed s.trace)

module _ {Db W : Type 0} (env : Env Db W) where
  visit-NoneOpen :
      (names : ResourceNames) (repl_pass root_pass candidate : Text) (pod : Pod) (p : Progress)
      (s : State Db W)
      → NoneOpen s
      → NoneOpen (reconcile_pod env repl_pass names root_pass candidate pod p s).1
  unfolding reconcile_pod guarded release
  visit-NoneOpen names repl_pass root_pass candidate pod p s h = ground (arith, h)

  look-NoneOpen :
      (names : ResourceNames) (root_pass : Text) (b : Bool) (candidate : Text) (pod : Pod)
      (acc : Collected Db) (s : State Db W)
      → NoneOpen s
      → NoneOpen (collect_pod env names root_pass b candidate pod acc s).1
  unfolding collect_pod examine guarded release
  look-NoneOpen names root_pass b candidate pod acc s h = ground (arith, h)

  pub write-NoneOpen :
      (namespace name : Text) (desired : MySqlStatus) (s : State Db W)
      → NoneOpen s
      → NoneOpen (write_status env namespace name desired s).1
  unfolding write_status
  write-NoneOpen namespace name desired s h = ground (arith, h)

  parts-NoneOpen : (names : ResourceNames) → PartsKeep env names NoneOpen
  parts-NoneOpen names = record {
    reads = λ namespace name s h. h;
    lists = λ namespace app s h. h;
    sets = λ status s h. h;
    collects = look-NoneOpen names;
    visits = visit-NoneOpen names;
    writes = write-NoneOpen;
    picks = λ db infos s h. ground (arith, h);
    ends = λ db s h. ground (arith, h);
  }

  -- A pass keeps to one client at a time and leaves none open.
  pub pass-NoneOpen :
      IsRetry env
      → (names : ResourceNames) (s : State Db W) → NoneOpen s
      → NoneOpen (reconcile_group_replication env names s).1
  pass-NoneOpen law names s h = pass_keeps env law names NoneOpen (parts-NoneOpen names) s h
