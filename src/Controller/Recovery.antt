-- ===== src/Controller/Recovery.antt =====
-- What `reconcilePods` and `reconcileGroupReplication` of internal/controller/group_replication.go do
-- for a group that is down: the servers' side of group replication as laws on the client.
pub mod Visits
pub mod Loop
pub mod Pods
pub mod Looking
pub mod Passes
pub mod Protocol
pub mod Deadlock
use yet_another_mysql_operat.Prelude.{
  Bool, true, false, ◌≡◌, List, [], ◌∷◌, Option, none, some, if◌then◌else◌,
}
use yet_another_mysql_operat.Prelude.Result.{Result, ok, err}
use yet_another_mysql_operat.Prelude.Text.{Text}
use yet_another_mysql_operat.Api.{MySql}
use yet_another_mysql_operat.Controller.Objects.{Pod}
use yet_another_mysql_operat.Controller.Pods.{is_contactable, parse_ordinal}
use yet_another_mysql_operat.Controller.Env.{Env, State}
use yet_another_mysql_operat.Controller.ReconcilePods.{Action, choose_action}

abbrev pub is_ok : {A : Type 0} → Result A → Bool
is_ok (ok _) = true
is_ok (err _) = false

abbrev pub says_yes : Result Bool → Bool
says_yes (ok b) = b
says_yes (err _) = false

-- The first pod that the loops do not pass over
abbrev pub first_contactable : List Pod → Option Pod
first_contactable [] = none
first_contactable (pod ∷ pods) = if is_contactable pod then some pod else first_contactable pods

-- What the loop does with a pod that it can reach, if no member is online: the restart candidate, the
-- pod, whether the group was bootstrapped, and `ForceBootstrap`.
abbrev pub opening : Text → Pod → Bool → Bool → Action
opening candidate pod bootstrapped force =
    choose_action bootstrapped false force (parse_ordinal pod.name).0 pod.name candidate

-- The same, for the state of a pass at its start
abbrev pub opening_in : {Db W : Type 0} → Text → Pod → State Db W → Action
opening_in candidate pod s =
    opening candidate pod s.mysql.status.group_replication_bootstrapped
      s.mysql.spec.group_replication.force_bootstrap

-- The servers answer, and `up` tells whether the group is up. Only a bootstrap brings it up. A server
-- joins a group that is up. In a group that is down no server is online, nor knows of one.
pub record Answers {Db W : Type 0} (env : Env Db W) (up : W → Bool) : Type 0 where
  pub connects : (dsn : Text) (w : W) → is_ok (env.gr.new_gr_client dsn w).0 ≡ true
  pub connects_up : (dsn : Text) (w : W) → up (env.gr.new_gr_client dsn w).1 ≡ up w
  pub closes_up : (db : Db) (w : W) → up (env.gr.close db w).1 ≡ up w
  pub self : (db : Db) (w : W) → is_ok (env.gr.self_online db w).0 ≡ true
  pub self_up : (db : Db) (w : W) → up (env.gr.self_online db w).1 ≡ up w
  pub self_down : (db : Db) (w : W) → up w ≡ false → (env.gr.self_online db w).0 ≡ ok false
  pub any : (db : Db) (w : W) → is_ok (env.gr.any_online_member db w).0 ≡ true
  pub any_up : (db : Db) (w : W) → up (env.gr.any_online_member db w).1 ≡ up w
  pub any_down : (db : Db) (w : W) → up w ≡ false → (env.gr.any_online_member db w).0 ≡ ok false
  pub user : (db : Db) (pw : Text) (w : W) → is_ok (env.gr.ensure_replication_user db pw w).0 ≡ true
  pub user_up : (db : Db) (pw : Text) (w : W) → up (env.gr.ensure_replication_user db pw w).1 ≡ up w
  pub bootstraps : (db : Db) (pw : Text) (w : W) → is_ok (env.gr.bootstrap db pw w).0 ≡ true
  pub bootstraps_up : (db : Db) (pw : Text) (w : W) → up (env.gr.bootstrap db pw w).1 ≡ true
  pub joins : (db : Db) (pw : Text) (w : W) → up w ≡ true → is_ok (env.gr.join db pw w).0 ≡ true
  pub joins_up : (db : Db) (pw : Text) (w : W) → up (env.gr.join db pw w).1 ≡ up w

-- A server that is to join a group that is down refuses, with an error other than 3663: it is neither
-- online nor recovering, and finds no member to join.
pub record Refuses {Db W : Type 0} (env : Env Db W) (up : W → Bool) : Type 0 where
  pub no_join : (db : Db) (pw : Text) (w : W) → up w ≡ false → is_ok (env.gr.join db pw w).0 ≡ false

-- The object can be read, and the API server has no part in the group.
pub record Apart {Db W : Type 0} (env : Env Db W) (up : W → Bool) : Type 0 where
  pub reads :
      (namespace name : Text) (w : W)
      → (m : MySql) × ((env.kube.get_mysql_object namespace name w).0 ≡ ok m)
  pub reads_up :
      (namespace name : Text) (w : W) → up (env.kube.get_mysql_object namespace name w).1 ≡ up w
  pub writes_up : (m : MySql) (w : W) → up (env.kube.update_status m w).1 ≡ up w
