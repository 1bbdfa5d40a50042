-- ===== src/Controller/Reconcile/Deploys.antt =====
-- The stages of a reconciliation in front of group replication, over laws of `CreateOrUpdate`.
use yet_another_mysql_operat.Prelude.{◌≡◌, ◌≢◌, ◌⊎◌, inl, inr, refl}
use yet_another_mysql_operat.Prelude.Result.{Result, ok, err, is_not_found, is_conflict, Exec}
use yet_another_mysql_operat.Prelude.Text.{Text, codes}
use yet_another_mysql_operat.Api.{MySql}
use yet_another_mysql_operat.Util.Hash.{hash_config_map_data}
use yet_another_mysql_operat.Controller.Objects.{ConfigMap}
use yet_another_mysql_operat.Controller.Names.{
  ResourceNames, build_resource_names, replication_secret_name,
}
use yet_another_mysql_operat.Util.{cluster_secret_name}
use yet_another_mysql_operat.Controller.Env.{Env, State}
use yet_another_mysql_operat.Controller.Secrets.{new_secret}
use yet_another_mysql_operat.Controller.Stages.{
  Cluster, reconcile_root_secret, reconcile_replication_secret, reconcile_config_map,
  reconcile_service, reconcile_stateful_set,
}
use yet_another_mysql_operat.Controller.Reconcile.{
  Outcome, handle_reconcile_error, finish, deploy, with_config, load_config, reconcile_object,
  start, reconcile,
}
use yet_another_mysql_operat.Controller.Reconcile.Rule.{stage_rule}
use yet_another_mysql_operat.Controller.Reconcile.Server.{Server}
use yet_another_mysql_operat.Controller.Reconcile.Deployed.{
  Deployed, EndsEarly, choose-EndsEarly, handle-EndsEarly, RootIn, ReplIn, CfgIn, StsIn,
  all-Deployed,
}

module _ {Key Quantity Db W : Type 0} (env : Env Db W) (cluster : Cluster Key Quantity W)
    (server : Server cluster) (names : ResourceNames) where
  root_keeps :
      (t : State Db W)
      → (reconcile_root_secret cluster names.secret t).0 ≡ ok tt
      → RootIn env cluster server names t.mysql
          (reconcile_root_secret cluster names.secret t).1.world
  unfolding reconcile_root_secret new_secret
  root_keeps t = server.secret_stored _ _ _

  repl_keeps :
      (t : State Db W)
      → names.secret ≢ names.repl_sec
      → let u = (reconcile_replication_secret cluster names.repl_sec t).1 in
        (server.secret_at u.world t.mysql.namespace names.secret
          ≡ server.secret_at t.world t.mysql.namespace names.secret)
        × ((reconcile_replication_secret cluster names.repl_sec t).0 ≡ ok tt
            → ReplIn env cluster server names t.mysql u.world)
  unfolding reconcile_replication_secret new_secret
  repl_keeps t apart = (server.secret_others _ _ _ _ _ apart, server.secret_stored _ _ _)

  config_keeps :
      (t : State Db W)
      → let u = (reconcile_config_map cluster names.config t).1 in
        (server.secret_at u.world ≡ server.secret_at t.world)
        × ((reconcile_config_map cluster names.config t).0 ≡ ok tt
            → CfgIn env cluster server names t.mysql u.world)
  unfolding reconcile_config_map
  config_keeps t = (server.config_map_secrets _ _ _, server.config_map_stored _ _ _)

  service_keeps :
      (t : State Db W)
      → let u = (reconcile_service cluster names.service t).1 in
        (server.secret_at u.world ≡ server.secret_at t.world)
        × (server.config_map_at u.world ≡ server.config_map_at t.world)
  unfolding reconcile_service
  service_keeps t = (server.service_secrets _ _ _, server.service_config_maps _ _ _)

  abbrev sets : Text → Exec (State Db W) (Unit {0})
  sets hash = reconcile_stateful_set cluster names.sts names.secret names.repl_sec names.config hash

  sets_keep :
      (hash : Text) (t : State Db W)
      → let u = (sets hash t).1 in
        (server.secret_at u.world ≡ server.secret_at t.world)
        × (server.config_map_at u.world ≡ server.config_map_at t.world)
        × ((sets hash t).0 ≡ ok tt → StsIn env cluster server names t.mysql hash u.world)
  unfolding reconcile_stateful_set
  sets_keep hash t = (
    server.stateful_set_secrets _ _ _,
    server.stateful_set_config_maps _ _ _,
    server.stateful_set_stored _ _ _,
  )

  module _ (namespace name : Text) where
    -- The reconciliation ends early, or goes on from a state with everything stored.
    abbrev pub Deploys : MySql → Result Outcome × State Db W → Type 0
    Deploys m x =
        EndsEarly env cluster server names x
        ⊎ ((t : State Db W) × (x ≡ finish env cluster namespace name names t)
            × (t.mysql ≡ m)
            × Deployed env cluster server names m t.world)

    deploy-Deploys :
        (t : State Db W) (read : ConfigMap) (v : W)
        → (cluster.get_config_map t.mysql.namespace names.config v).0 ≡ ok read
        → RootIn env cluster server names t.mysql t.world
        → ReplIn env cluster server names t.mysql t.world
        → CfgIn env cluster server names t.mysql t.world
        → Deploys t.mysql (
            deploy env cluster namespace name names
              (hash_config_map_data cluster.sha256_hex read.contents)
              t)
    unfolding deploy
    deploy-Deploys t read v got root repl cfg =
        let hash = hash_config_map_data cluster.sha256_hex read.contents in
        let service = reconcile_service cluster names.service in
        let u = (service t).1 in
        let x = (sets hash u).1 in
        let (su, cu) = service_keeps t in
        let (sx, cx, stored) = sets_keep hash u in
        stage_rule env cluster (Deploys t.mysql) service
          (handle_reconcile_error env cluster (codes "Service")) _ t
          (λ e _. inl (handle-EndsEarly env cluster server names (codes "Service") e u))
          (λ _.
            stage_rule env cluster (Deploys t.mysql) (sets hash) _
              (finish env cluster namespace name names) u
              (λ e _. inl (
                choose-EndsEarly env cluster server names (is_conflict e)
                  (codes "Reconciling StatefulSet") e x))
              (λ wrote. inr (
                x,
                refl,
                unfold reconcile_service reconcile_stateful_set in refl,
                all-Deployed env cluster server names t.mysql read v x.world got (rw (sx, su) root)
                    (rw (sx, su) repl) (rw (cx, cu) cfg) (unfold reconcile_service in stored wrote),
              )))

    with_config-Deploys :
        (t : State Db W) (r : Result ConfigMap) (v : W)
        → (cluster.get_config_map t.mysql.namespace names.config v).0 ≡ r
        → RootIn env cluster server names t.mysql t.world
        → ReplIn env cluster server names t.mysql t.world
        → CfgIn env cluster server names t.mysql t.world
        → Deploys t.mysql (with_config env cluster namespace name names r t)
    unfolding with_config
    with_config-Deploys t (err e) v got root repl cfg =
        inl (
          choose-EndsEarly env cluster server names (is_not_found e) (codes "Loading ConfigMap") e
            t)
    with_config-Deploys t (ok read) v got root repl cfg = deploy-Deploys t read v got root repl cfg

    load-Deploys :
        (t : State Db W)
        → RootIn env cluster server names t.mysql t.world
        → ReplIn env cluster server names t.mysql t.world
        → CfgIn env cluster server names t.mysql t.world
        → Deploys t.mysql (load_config env cluster namespace name names t)
    unfolding load_config
    load-Deploys t root repl cfg =
        let got = cluster.get_config_map t.mysql.namespace names.config t.world in
        with_config-Deploys (record t { world = got.1 }) got.0 t.world refl
          (rw (server.read_secrets t.mysql.namespace names.config t.world) root)
          (rw (server.read_secrets t.mysql.namespace names.config t.world) repl)
          (rw (server.read_config_maps t.mysql.namespace names.config t.world) cfg)

    -- Where the two secrets have different names and `CreateOrUpdate` keeps its laws: a
    -- reconciliation of an object ends early, with an error or a request to be run again, or else goes
    -- on to the status and group replication with everything stored. The StatefulSet then carries the
    -- hash of the configuration as it was read, and each key that it refers to is in the stored
    -- secrets and the stored config map.
    pub object-Deploys :
        names.secret ≢ names.repl_sec
        → (s : State Db W) → Deploys s.mysql (reconcile_object env cluster namespace name names s)
    unfolding reconcile_object reconcile_root_secret reconcile_replication_secret
        reconcile_config_map
    object-Deploys apart s =
        let roots = reconcile_root_secret cluster names.secret in
        let repls = reconcile_replication_secret cluster names.repl_sec in
        let cfgs = reconcile_config_map cluster names.config in
        let t = (roots s).1 in
        let u = (repls t).1 in
        let x = (cfgs u).1 in
        let kept_repl = repl_keeps t apart in
        let kept_config = config_keeps u in
        stage_rule env cluster (Deploys s.mysql) roots
          (handle_reconcile_error env cluster (codes "Secret")) _ s
          (λ e _. inl (handle-EndsEarly env cluster server names (codes "Secret") e t))
          (λ a.
            stage_rule env cluster (Deploys s.mysql) repls
              (handle_reconcile_error env cluster (codes "Replication Secret")) _ t
              (λ e _.
                inl (handle-EndsEarly env cluster server names (codes "Replication Secret") e u))
              (λ b.
                stage_rule env cluster (Deploys s.mysql) cfgs
                  (handle_reconcile_error env cluster (codes "ConfigMap"))
                  (load_config env cluster namespace name names) u
                  (λ e _. inl (handle-EndsEarly env cluster server names (codes "ConfigMap") e x))
                  (λ c.
                    load-Deploys x (rw (kept_config.0, kept_repl.0) (root_keeps s a))
                      (rw kept_config.0 (kept_repl.1 b)) (kept_config.1 c))))

module _ {Key Quantity Db W : Type 0} (env : Env Db W) (cluster : Cluster Key Quantity W)
    (server : Server cluster) where
  -- Where the object is read, its two secrets have different names, and `CreateOrUpdate` keeps its
  -- laws: a reconciliation ends early, with an error or a request to be run again, or else goes on
  -- to the status and group replication, with the object in its state, from a world with everything
  -- stored. The StatefulSet there carries the hash of the configuration as it was read, and each
  -- key that it refers to is in the stored secrets and the stored config map.
  pub reconcile-Deploys :
      (namespace name : Text) (s : State Db W) (m : MySql)
      → (env.kube.get_mysql_object namespace name s.world).0 ≡ ok m
      → cluster_secret_name m ≢ replication_secret_name m
      → Deploys env cluster server
          (build_resource_names m)
          namespace
          name
          m
          (reconcile env cluster namespace name s)
  unfolding reconcile start build_resource_names
  reconcile-Deploys namespace name s m got apart =
      let w = (env.kube.get_mysql_object namespace name s.world).1 in
      rw got (
        object-Deploys env cluster server (build_resource_names m) namespace name apart
          (record s { world = w; mysql = m }))
