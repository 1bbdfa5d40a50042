-- ===== src/Controller/Reconcile/Rule.antt =====
-- A rule for what holds at the end of `Reconcile`: an invariant of the stages in front of the
-- StatefulSet's Get, and what each way out of them makes of it.
use yet_another_mysql_operat.Prelude.{◌≡◌, refl, Bool, true, false, ◌∷◌, ◌++◌, if◌then◌else◌}
use yet_another_mysql_operat.Prelude.Result.{
  Error, Result, ok, err, is_conflict, is_not_found, Exec, pure,
}
use yet_another_mysql_operat.Prelude.Text.{Text, codes}
use yet_another_mysql_operat.Controller.Objects.{ConfigMap}
use yet_another_mysql_operat.Util.Hash.{hash_config_map_data}
use yet_another_mysql_operat.Controller.Names.{ResourceNames}
use yet_another_mysql_operat.Controller.Env.{Env, State, wrote_object}
use yet_another_mysql_operat.Controller.Stages.{
  Cluster, reconcile_root_secret, reconcile_replication_secret, reconcile_config_map,
  reconcile_service, reconcile_stateful_set,
}
use yet_another_mysql_operat.Controller.Reconcile.{
  Outcome, requeue, fail_status, handle_reconcile_error, or_else_handle, stage, finish, deploy,
  with_config, load_config, reconcile_object,
}

module _ {Key Quantity Db W : Type 0} (env : Env Db W) (cluster : Cluster Key Quantity W) where
  abbrev End : Type 0
  End = Result Outcome × State Db W

  module _ (Q : End → Type 0) where
    or_else_rule :
        (r : Result (Unit {0})) (handle : Error → Exec (State Db W) Outcome)
        (next : Exec (State Db W) Outcome) (t : State Db W)
        → ((e : Error) → r ≡ err e → Q (handle e t))
        → (r ≡ ok tt → Q (next t))
        → Q (or_else_handle env cluster r handle next t)
    or_else_rule (ok _) handle next t failed done = done refl
    or_else_rule (err e) handle next t failed done = failed e refl

    -- A stage ends where its handler ends, or where the rest ends.
    pub stage_rule :
        (m : Exec (State Db W) (Unit {0})) (handle : Error → Exec (State Db W) Outcome)
        (next : Exec (State Db W) Outcome) (s : State Db W)
        → ((e : Error) → (m s).0 ≡ err e → Q (handle e (m s).1))
        → ((m s).0 ≡ ok tt → Q (next (m s).1))
        → Q (stage env cluster m handle next s)
    unfolding stage
    stage_rule m handle next s = or_else_rule (m s).0 handle next (m s).1

    pub choose_rule :
        (b : Bool) (x y : Exec (State Db W) Outcome) (s : State Db W)
        → Q (x s)
        → Q (y s)
        → Q ((if b then x else y) s)
    choose_rule true x y s hx hy = hx
    choose_rule false x y s hx hy = hy

  module _ (P : State Db W → Type 0) (Q : End → Type 0)
      (asked : (w : W) (s : State Db W) → P s → P (record s { world = w }))
      (wrote : (name : Text) (w : W) (s : State Db W)
        → P s
        → P (record s { world = w; trace = wrote_object name ∷ s.trace }))
      (fails : (place : Text) (e : Error) (s : State Db W)
        → P s
        → Q (fail_status env cluster place e s))
      (requeues : (s : State Db W) → P s → Q (ok requeue, s)) where
    handle_rule :
        (resource : Text) (e : Error) (s : State Db W)
        → P s
        → Q (handle_reconcile_error env cluster resource e s)
    unfolding handle_reconcile_error
    handle_rule resource e s h =
        choose_rule Q (is_conflict e) (pure requeue)
          (fail_status env cluster (codes "Reconciling " ++ resource) e) s (requeues s h)
          (fails (codes "Reconciling " ++ resource) e s h)

    module _ (namespace name : Text) (names : ResourceNames)
        (finishes : (s : State Db W) → P s → Q (finish env cluster namespace name names s)) where
      deploy_rule :
          (cfg_hash : Text) (s : State Db W)
          → P s
          → Q (deploy env cluster namespace name names cfg_hash s)
      unfolding deploy reconcile_service reconcile_stateful_set
      deploy_rule cfg_hash s h =
          stage_rule Q (reconcile_service cluster names.service)
            (handle_reconcile_error env cluster (codes "Service")) _ s
            (λ e _. handle_rule (codes "Service") e _ (wrote _ _ s h))
            (λ _.
              let t = (reconcile_service cluster names.service s).1 in
              stage_rule Q
                (reconcile_stateful_set cluster names.sts names.secret names.repl_sec names.config
                  cfg_hash)
                _ _ t
                (λ e _.
                  choose_rule Q (is_conflict e) (pure requeue)
                    (fail_status env cluster (codes "Reconciling StatefulSet") e) _
                    (requeues _ (wrote _ _ t (wrote _ _ s h)))
                    (fails _ e _ (wrote _ _ t (wrote _ _ s h))))
                (λ _. finishes _ (wrote _ _ t (wrote _ _ s h))))

      with_config_rule :
          (r : Result ConfigMap) (s : State Db W)
          → P s
          → Q (with_config env cluster namespace name names r s)
      unfolding with_config
      with_config_rule (err e) s h =
          choose_rule Q (is_not_found e) (pure requeue)
            (fail_status env cluster (codes "Loading ConfigMap") e) s (requeues s h) (fails _ e s h)
      with_config_rule (ok cfg) s h =
          deploy_rule (hash_config_map_data cluster.sha256_hex cfg.contents) s h

      load_config_rule : (s : State Db W) → P s → Q (load_config env cluster namespace name names s)
      unfolding load_config
      load_config_rule s h =
          let got = cluster.get_config_map s.mysql.namespace names.config s.world in
          with_config_rule got.0 (record s { world = got.1 }) (asked got.1 s h)

      pub reconcile_object_rule :
          (s : State Db W) → P s → Q (reconcile_object env cluster namespace name names s)
      unfolding reconcile_object reconcile_root_secret reconcile_replication_secret
          reconcile_config_map
      reconcile_object_rule s h =
          stage_rule Q (reconcile_root_secret cluster names.secret)
            (handle_reconcile_error env cluster (codes "Secret")) _ s
            (λ e _. handle_rule _ e _ (wrote _ _ s h))
            (λ _.
              let t = (reconcile_root_secret cluster names.secret s).1 in
              stage_rule Q (reconcile_replication_secret cluster names.repl_sec)
                (handle_reconcile_error env cluster (codes "Replication Secret")) _ t
                (λ e _. handle_rule _ e _ (wrote _ _ t (wrote _ _ s h)))
                (λ _.
                  let u = (reconcile_replication_secret cluster names.repl_sec t).1 in
                  let g = wrote _ _ t (wrote _ _ s h) in
                  stage_rule Q (reconcile_config_map cluster names.config)
                    (handle_reconcile_error env cluster (codes "ConfigMap")) _ u
                    (λ e _. handle_rule _ e _ (wrote _ _ u g))
                    (λ _. load_config_rule _ (wrote _ _ u g))))
