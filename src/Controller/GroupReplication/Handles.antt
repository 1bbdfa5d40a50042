-- ===== src/Controller/GroupReplication/Handles.antt =====
-- The clients and the comparison handle of a whole group replication pass.
use yet_another_mysql_operat.Prelude.{◌+◌, ◌≡◌, refl, Bool, List, Option, arith}
use yet_another_mysql_operat.Prelude.Result.{bind_keeps, annotate}
use yet_another_mysql_operat.Prelude.Text.{Text, codes}
use yet_another_mysql_operat.Api.{MySqlStatus}
use yet_another_mysql_operat.GrClient.Candidate.{GtidInfo}
use yet_another_mysql_operat.Controller.Objects.{Pod}
use yet_another_mysql_operat.Controller.Names.{ResourceNames}
use yet_another_mysql_operat.Controller.Env.{
  Env, State, release, guarded, write_status, save_status,
}
use yet_another_mysql_operat.Controller.Retry.{IsRetry}
use yet_another_mysql_operat.Controller.Trace.{
  clients_opened, clients_closed, compares_opened, compares_closed,
}
use yet_another_mysql_operat.Controller.Collect.{Collected}
use yet_another_mysql_operat.Controller.Collect.Laws.{held}
use yet_another_mysql_operat.Controller.ReconcilePods.{Progress, reconcile_pod}
use yet_another_mysql_operat.Controller.ReconcilePods.Induction.{
  reconcile_pods_keeps, save_status_keeps,
}
use yet_another_mysql_operat.Controller.GroupReplication.{
  Loaded, load_secrets_and_pods, pick_with, save_candidate, record_candidate, act_on,
  with_collected,
}

-- Clients are closed again, and comparison handles are neither opened nor closed.
pub record Tidy {Db W : Type 0} (s t : State Db W) : Type 0 where
  pub clients :
      clients_opened t.trace + clients_closed s.trace
      ≡ clients_closed t.trace + clients_opened s.trace
  pub opened : compares_opened t.trace ≡ compares_opened s.trace
  pub closed : compares_closed t.trace ≡ compares_closed s.trace

Tidy-refl : {Db W : Type 0} (s : State Db W) → Tidy s s
Tidy-refl s = record { clients = omega arith; opened = refl; closed = refl }

module _ {Db W : Type 0} (env : Env Db W) (law : IsRetry env) where
  pub load-Tidy :
      (names : ResourceNames) (s : State Db W) → Tidy s (load_secrets_and_pods env names s).1
  unfolding load_secrets_and_pods
  load-Tidy names s = ground arith

  write-Tidy :
      (namespace name : Text) (desired : MySqlStatus) (s t : State Db W)
      → Tidy s t
      → Tidy s (write_status env namespace name desired t).1
  unfolding write_status
  write-Tidy namespace name desired s t h = ground arith

  round-Tidy :
      (repl_pass : Text) (names : ResourceNames) (root_pass : Text) (candidate : Text) (pod : Pod)
      (p : Progress) (s t : State Db W)
      → Tidy s t
      → Tidy s (reconcile_pod env repl_pass names root_pass candidate pod p t).1
  unfolding reconcile_pod guarded release
  round-Tidy repl_pass names root_pass candidate pod p s t h = ground arith

  save-Tidy :
      (namespace name : Text) (s t : State Db W)
      → Tidy s t
      → Tidy s (save_status env namespace name t).1
  save-Tidy namespace name s =
      save_status_keeps env law (Tidy s) (λ ns n d t h. write-Tidy ns n d s t h) namespace name

  save_candidate-Tidy :
      (candidate : Text) (s t : State Db W) → Tidy s t → Tidy s (save_candidate env candidate t).1
  unfolding save_candidate
  save_candidate-Tidy candidate s t h =
      save-Tidy t.mysql.namespace t.mysql.name s
        (record t {
          mysql = record t.mysql {
            status = record t.mysql.status { restart_candidate = candidate };
          };
        })
        (ground arith)

  pick-Tidy :
      (c : Option Db) (infos : List GtidInfo) (s : State Db W) → Tidy s (pick_with env c infos s).1
  unfolding pick_with
  pick-Tidy c infos s = ground arith

  candidate-Tidy :
      (collected : Collected Db) (s : State Db W) → Tidy s (record_candidate env collected s).1
  unfolding record_candidate
  candidate-Tidy collected s =
      bind_keeps (Tidy s)
        (annotate (codes "pick restart candidate") (pick_with env collected.cmp_db collected.infos))
        (save_candidate env) s (pick-Tidy collected.cmp_db collected.infos s)
        (λ candidate _.
          save_candidate-Tidy candidate s _ (pick-Tidy collected.cmp_db collected.infos s))

  pub act-Tidy :
      (names : ResourceNames) (loaded : Loaded) (bootstrapped : Bool) (candidate : Text)
      (collected : Collected Db) (s : State Db W)
      → Tidy s (act_on env names loaded bootstrapped candidate collected s).1
  unfolding act_on
  act-Tidy names loaded bootstrapped candidate collected s = ground (
    arith,
    candidate-Tidy collected s,
    reconcile_pods_keeps env law (Tidy s) (λ ns n d t h. write-Tidy ns n d s t h) loaded.repl_pass
        names loaded.root_pass candidate
        (λ pod p t h. round-Tidy loaded.repl_pass names loaded.root_pass candidate pod p s t h)
        loaded.pods bootstrapped s (Tidy-refl s),
  )

  -- The deferred close closes the handle that there is.
  pub with_collected_handles :
      (names : ResourceNames) (loaded : Loaded) (bootstrapped : Bool) (candidate : Text)
      (collected : Collected Db) (s : State Db W)
      → let t = (with_collected env names loaded bootstrapped candidate collected s).1 in
        (clients_opened t.trace + clients_closed s.trace
          ≡ clients_closed t.trace + clients_opened s.trace)
        × (compares_opened t.trace ≡ compares_opened s.trace)
        × (compares_closed t.trace ≡ compares_closed s.trace + held collected.cmp_db)
  unfolding with_collected
  with_collected_handles names loaded bootstrapped candidate collected s =
      ground (arith, act-Tidy names loaded bootstrapped candidate collected s)
