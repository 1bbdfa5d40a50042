-- ===== src/Controller/Env.antt =====
-- What the reconciler calls: the Kubernetes client and the group replication client, as interfaces
-- over an abstract world, and the state of a reconciliation: that world, the object `mysql` that the
-- functions share by pointer, and the calls made, the newest first.
use yet_another_mysql_operat.Prelude.{Bool, List, ◌∷◌}
use yet_another_mysql_operat.Prelude.Result.{
  Result, ok, err, wrap, Exec, pure, raise, attempt, ◌>>=◌, ◌>>◌,
}
use yet_another_mysql_operat.Prelude.Text.{Text}
use yet_another_mysql_operat.Api.{MySql, MySqlStatus}
use yet_another_mysql_operat.GrClient.{GtidSets}
use yet_another_mysql_operat.GrClient.Candidate.{GtidInfo}
use yet_another_mysql_operat.Controller.Objects.{Pod, Secret}

-- The interface `grClient` with its factory, `PickRestartCandidate`, and the handle `cmpDB`.
pub record GrOps (Db W : Type 0) : Type 0 where
  pub new_gr_client : Text → Exec W Db
  pub close : Db → Exec W (Unit {0})
  pub self_online : Db → Exec W Bool
  pub gtid_sets : Db → Exec W GtidSets
  pub ensure_replication_user : Db → Text → Exec W (Unit {0})
  pub any_online_member : Db → Exec W Bool
  pub bootstrap : Db → Text → Exec W (Unit {0})
  pub join : Db → Text → Exec W (Unit {0})
  pub open_compare : Text → Exec W Db
  pub close_compare : Db → Exec W (Unit {0})
  pub pick_restart_candidate : Db → List GtidInfo → Exec W Text

-- The calls that the controller's properties speak of. A client, and the handle `cmpDB`, is listed
-- as opened if the call gave one.
pub data Event (Db : Type 0) : Type 0 where
  client_opened : Db → Event Db
  client_closed : Db → Event Db
  user_ensured : Db → Event Db
  bootstrapped : Db → Event Db
  joined : Db → Event Db
  compare_opened : Db → Event Db
  compare_closed : Db → Event Db
  picked : List GtidInfo → Event Db
  read_object : Text → Event Db
  wrote_object : Text → Event Db
  wrote_status : MySqlStatus → Event Db

pub record State (Db W : Type 0) : Type 0 where
  pub world : W
  pub mysql : MySql
  pub trace : List (Event Db)

abbrev pub note : {Db : Type 0} → (Db → Event Db) → Result Db → List (Event Db) → List (Event Db)
note e (ok db) trace = e db ∷ trace
note e (err _) trace = trace

module _ {Db W : Type 0} where
  -- Runs a call that the trace does not list.
  abbrev pub ask : {A : Type 0} → Exec W A → Exec (State Db W) A
  ask m s = let (r, w) = m s.world in (r, record s { world = w })

  -- Runs a call and lists it, whatever its result.
  abbrev pub issue : {A : Type 0} → Event Db → Exec W A → Exec (State Db W) A
  issue e m s = let (r, w) = m s.world in (r, record s { world = w; trace = e ∷ s.trace })

  -- Runs a call and lists it if it gave a handle.
  abbrev pub acquire : (Db → Event Db) → Exec W Db → Exec (State Db W) Db
  acquire e m s = let (r, w) = m s.world in (r, record s { world = w; trace = note e r s.trace })

  abbrev pub get_mysql : Exec (State Db W) MySql
  get_mysql s = (ok s.mysql, s)

  abbrev pub set_status : MySqlStatus → Exec (State Db W) (Unit {0})
  set_status status s = (ok tt, record s { mysql = record s.mysql { status = status } })

-- The Kubernetes client. The status update carries the whole object, with its resource version.
pub record KubeOps (W : Type 0) : Type 0 where
  pub get_mysql_object : Text → Text → Exec W MySql
  pub get_secret : Text → Text → Exec W Secret
  pub list_pods : Text → Text → Exec W (List Pod)
  pub update_status : MySql → Exec W (Unit {0})

-- All that a reconciliation calls; `retry` is `retry.RetryOnConflict(retry.DefaultRetry, f)`.
pub record Env (Db W : Type 0) : Type 0 where
  pub gr : GrOps Db W
  pub kube : KubeOps W
  pub retry : Exec (State Db W) (Unit {0}) → Exec (State Db W) (Unit {0})

module _ {Db W : Type 0} (env : Env Db W) where
  -- `_ = grClient.Close()`
  unfoldable pub release : Db → Exec (State Db W) (Unit {0})
  release client = do attempt (issue (client_closed client) (env.gr.close client)); pure tt

  -- An error closes the client and is returned with the place and the pod's name in front.
  unfoldable pub close_if_failed : {A : Type 0} → Db → Text → Result A → Exec (State Db W) A
  unfolding release
  close_if_failed client place (ok a) = pure a
  close_if_failed client place (err e) = do release client; raise (wrap place e)

  unfoldable pub guarded : {A : Type 0} → Db → Text → Exec (State Db W) A → Exec (State Db W) A
  unfolding close_if_failed
  guarded client place m = do r ← attempt m; close_if_failed client place r

  -- The function that is retried: the desired status is put on a fresh copy of the object.
  unfoldable pub write_status : Text → Text → MySqlStatus → Exec (State Db W) (Unit {0})
  write_status namespace name desired = do
    latest ← ask (env.kube.get_mysql_object namespace name)
    issue (wrote_status desired) (env.kube.update_status (record latest { status = desired }))

  -- The status of the shared object is written; a failure is only logged.
  unfoldable pub save_status : Text → Text → Exec (State Db W) (Unit {0})
  unfolding write_status
  save_status namespace name = do
    mysql ← get_mysql
    attempt (env.retry (write_status namespace name mysql.status))
    pure tt
