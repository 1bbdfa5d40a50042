-- ===== src/Controller/GroupReplication/Rule.antt =====
-- A rule for invariants of `reconcileGroupReplication`: what each of its parts keeps, a pass keeps.
use yet_another_mysql_operat.Prelude.{
  if◌then◌else◌, ◌&&◌, not, Bool, true, false, List, [], ◌∷◌, Option, none, some,
}
use yet_another_mysql_operat.Prelude.Result.{
  Result, bind_keeps, Exec, pure, lift, annotate, ◌>>◌, ◌>>=◌,
}
use yet_another_mysql_operat.Prelude.Text.{Text, codes, is_empty}
use yet_another_mysql_operat.Prelude.Assoc
use yet_another_mysql_operat.Api.{MySqlStatus}
use yet_another_mysql_operat.Util.{root_user_env, replication_user_env}
use yet_another_mysql_operat.Controller.Objects.{Pod}
use yet_another_mysql_operat.Controller.Names.{ResourceNames}
use yet_another_mysql_operat.Controller.Env.{Env, State, ask, picked, compare_closed, write_status}
use yet_another_mysql_operat.Controller.Retry.{IsRetry}
use yet_another_mysql_operat.Controller.Collect.{
  Collected, nothing_collected, collect_pod, collect_pods, collect_group_info,
}
use yet_another_mysql_operat.GrClient.Candidate.{GtidInfo}
use yet_another_mysql_operat.Controller.ReconcilePods.{Progress, reconcile_pod, reconcile_pods}
use yet_another_mysql_operat.Controller.ReconcilePods.Induction.{
  save_status_keeps, reconcile_pods_keeps,
}
use yet_another_mysql_operat.Controller.GroupReplication.{
  Loaded, value_or_missing, secret_value, is_nil, load_secrets_and_pods, pick_with, save_candidate,
  record_candidate, act_on, close_compare, with_collected, collect_and_act,
  reconcile_group_replication,
}

-- The parts of a pass keep `P`.
pub record PartsKeep {Db W : Type 0} (env : Env Db W) (names : ResourceNames)
    (P : State Db W → Type 0) : Type 0 where
  pub reads :
      (namespace name : Text) (s : State Db W)
      → P s
      → P (record s { world = (env.kube.get_secret namespace name s.world).1 })
  pub lists :
      (namespace app : Text) (s : State Db W)
      → P s
      → P (record s { world = (env.kube.list_pods namespace app s.world).1 })
  pub sets :
      (status : MySqlStatus) (s : State Db W)
      → P s
      → P (record s { mysql = record s.mysql { status = status } })
  pub collects :
      (root_pass : Text) (bootstrapped : Bool) (candidate : Text) (pod : Pod) (acc : Collected Db)
      (s : State Db W)
      → P s
      → P (collect_pod env names root_pass bootstrapped candidate pod acc s).1
  pub visits :
      (repl_pass root_pass candidate : Text) (pod : Pod) (p : Progress) (s : State Db W)
      → P s
      → P (reconcile_pod env repl_pass names root_pass candidate pod p s).1
  pub writes :
      (namespace name : Text) (desired : MySqlStatus) (s : State Db W)
      → P s
      → P (write_status env namespace name desired s).1
  pub picks :
      (db : Db) (infos : List GtidInfo) (s : State Db W)
      → P s
      → P (record s {
        world = (env.gr.pick_restart_candidate db infos s.world).1;
        trace = picked infos ∷ s.trace;
      })
  pub ends :
      (db : Db) (s : State Db W)
      → P s
      → P (record s {
        world = (env.gr.close_compare db s.world).1;
        trace = compare_closed db ∷ s.trace;
      })

module _ {Db W : Type 0} (env : Env Db W) (law : IsRetry env) (names : ResourceNames)
    (P : State Db W → Type 0) (keep : PartsKeep env names P) where
  value_keeps :
      (name key : Text) (o : Option Text) (s : State Db W)
      → P s
      → P (value_or_missing env name key o s).1
  unfolding value_or_missing
  value_keeps name key none s h = h
  value_keeps name key (some v) s h = h

  secret_keeps :
      (namespace name key : Text) (s : State Db W)
      → P s
      → P (secret_value env namespace name key s).1
  unfolding secret_value
  secret_keeps namespace name key s h =
      let first = keep.reads namespace name s h in
      bind_keeps P (ask (env.kube.get_secret namespace name))
        (λ secret. value_or_missing env name key (Assoc.get key secret.contents)) s first
        (λ secret _. value_keeps name key _ _ first)

  load_keeps : (s : State Db W) → P s → P (load_secrets_and_pods env names s).1
  unfolding load_secrets_and_pods
  load_keeps s h =
      let namespace = s.mysql.namespace in
      let root =
        annotate (codes "load root password")
          (secret_value env namespace names.secret root_user_env) in
      let repl =
        annotate (codes "load replication password")
          (secret_value env namespace names.repl_sec replication_user_env) in
      let pods = annotate (codes "list pods") (ask (env.kube.list_pods namespace s.mysql.name)) in
      let all : Text → Text → List Pod → Exec (State Db W) Loaded =
        λ a b c. pure (record { root_pass = a; repl_pass = b; pods = c }) in
      let first = secret_keeps namespace names.secret root_user_env s h in
      let second = secret_keeps namespace names.repl_sec replication_user_env (root s).1 first in
      let third = keep.lists namespace s.mysql.name (repl (root s).1).1 second in
      bind_keeps P root (λ a. repl >>= λ b. pods >>= λ c. all a b c) s first
        (λ a _.
          bind_keeps P repl (λ b. pods >>= λ c. all a b c) (root s).1 second
            (λ b _. bind_keeps P pods (λ c. all a b c) (repl (root s).1).1 third (λ c _. third)))

  choose_keeps :
      (b : Bool) (x y : Exec (State Db W) (Unit {0})) (s : State Db W)
      → P (x s).1
      → P (y s).1
      → P ((if b then x else y) s).1
  choose_keeps true x y s hx hy = hx
  choose_keeps false x y s hx hy = hy

  collect_keeps :
      (root_pass : Text) (b : Bool) (r : Text) (pods : List Pod) (acc : Collected Db)
      (s : State Db W)
      → P s
      → P (collect_pods env names root_pass b r pods acc s).1
  unfolding collect_pods
  collect_keeps root_pass b r [] acc s h = h
  collect_keeps root_pass b r (pod ∷ pods) acc s h =
      let first = keep.collects root_pass b r pod acc s h in
      bind_keeps P (collect_pod env names root_pass b r pod acc)
        (λ acc'. collect_pods env names root_pass b r pods acc') s first
        (λ acc' _. collect_keeps root_pass b r pods acc' _ first)

  pick_keeps :
      (o : Option Db) (infos : List GtidInfo) (s : State Db W) → P s → P (pick_with env o infos s).1
  unfolding pick_with
  pick_keeps none infos s h = h
  pick_keeps (some db) infos s h = keep.picks db infos s h

  save_candidate_keeps :
      (candidate : Text) (s : State Db W) → P s → P (save_candidate env candidate s).1
  unfolding save_candidate
  save_candidate_keeps candidate s h =
      save_status_keeps env law P keep.writes s.mysql.namespace s.mysql.name _
        (keep.sets (record s.mysql.status { restart_candidate = candidate }) s h)

  candidate_keeps : (c : Collected Db) (s : State Db W) → P s → P (record_candidate env c s).1
  unfolding record_candidate
  candidate_keeps c s h =
      let first = pick_keeps c.cmp_db c.infos s h in
      bind_keeps P (annotate (codes "pick restart candidate") (pick_with env c.cmp_db c.infos))
        (save_candidate env) s first (λ candidate _. save_candidate_keeps candidate _ first)

  act_keeps :
      (loaded : Loaded) (b : Bool) (r : Text) (c : Collected Db) (s : State Db W)
      → P s
      → P (act_on env names loaded b r c s).1
  unfolding act_on
  act_keeps loaded b r c s h =
      choose_keeps (b && (not c.any_online && (is_empty r && not (is_nil c.infos))))
        (record_candidate env c)
        (reconcile_pods env loaded.repl_pass names loaded.root_pass r loaded.pods b) s
        (candidate_keeps c s h)
        (reconcile_pods_keeps env law P keep.writes loaded.repl_pass names loaded.root_pass r
          (keep.visits loaded.repl_pass loaded.root_pass r) loaded.pods b s h)

  with_collected_keeps :
      (loaded : Loaded) (b : Bool) (r : Text) (o : Option Db) (x : Result (Unit {0}) × State Db W)
      → P x.1
      → P ((close_compare env o >> lift x.0) x.1).1
  unfolding close_compare
  with_collected_keeps loaded b r none x h = h
  with_collected_keeps loaded b r (some db) x h = keep.ends db x.1 h

  collect_and_act_keeps :
      (loaded : Loaded) (s : State Db W) → P s → P (collect_and_act env names loaded s).1
  unfolding collect_and_act collect_group_info with_collected
  collect_and_act_keeps loaded s h =
      let b = s.mysql.status.group_replication_bootstrapped in
      let r = s.mysql.status.restart_candidate in
      let first = collect_keeps loaded.root_pass b r loaded.pods nothing_collected s h in
      bind_keeps P (collect_group_info env names loaded.root_pass b r loaded.pods)
        (with_collected env names loaded b r) s first
        (λ c _.
          with_collected_keeps loaded b r c.cmp_db (act_on env names loaded b r c _)
            (act_keeps loaded b r c _ first))

  pub pass_keeps : (s : State Db W) → P s → P (reconcile_group_replication env names s).1
  unfolding reconcile_group_replication
  pass_keeps s h =
      let first = load_keeps s h in
      bind_keeps P (load_secrets_and_pods env names) (collect_and_act env names) s first
        (λ loaded _. collect_and_act_keeps loaded _ first)
