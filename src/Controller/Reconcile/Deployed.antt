-- ===== src/Controller/Reconcile/Deployed.antt =====
-- What the stages of a reconciliation leave on the API server, and how `Reconcile` ends early.
use yet_another_mysql_operat.Prelude.{
  ◌≡◌, ◌⊎◌, inl, inr, refl, ◌++◌, Bool, true, false, some, if◌then◌else◌,
}
use yet_another_mysql_operat.Prelude.Result.{Error, Result, ok, err, is_conflict, lift, pure}
use yet_another_mysql_operat.Prelude.Text.{Text, codes, text_eq_iff}
use yet_another_mysql_operat.Prelude.Assoc.{get}
use yet_another_mysql_operat.Prelude.Assoc.Laws.{get-put}
use yet_another_mysql_operat.Api.{MySql}
use yet_another_mysql_operat.Util.{config_hash_annotation}
use yet_another_mysql_operat.Util.Hash.{hash_config_map_data}
use yet_another_mysql_operat.Controller.Objects.{Secret, ConfigMap}
use yet_another_mysql_operat.Controller.Names.{ResourceNames}
use yet_another_mysql_operat.Controller.Env.{Env, State}
use yet_another_mysql_operat.Controller.Secrets.{mutate_root_secret, mutate_replication_secret}
use yet_another_mysql_operat.Controller.StatefulSet.{StatefulSet}
use yet_another_mysql_operat.Controller.StatefulSet.Template.{pod_template}
use yet_another_mysql_operat.Controller.StatefulSet.Template.Laws.{mutate, mutated}
use yet_another_mysql_operat.Controller.StatefulSet.Template.References.{
  ReferencesExist, references_exist,
}
use yet_another_mysql_operat.Controller.Stages.{Cluster, mutate_config_map}
use yet_another_mysql_operat.Controller.Reconcile.{
  Outcome, requeue, fail_status, handle_reconcile_error,
}
use yet_another_mysql_operat.Controller.Reconcile.Server.{Stores, StoresWith, Server}

module _ {Key Quantity Db W : Type 0} (env : Env Db W) (cluster : Cluster Key Quantity W)
    (server : Server cluster) (names : ResourceNames) where
  -- The objects are stored, the StatefulSet with defaults filled in: it carries the hash of the configuration as it was read, and
  -- refers only to keys of the stored secrets and the stored config map.
  pub record Deployed (mysql : MySql) (w : W) : Type 0 where
    pub root : Secret
    pub repl : Secret
    pub cfg : ConfigMap
    pub sts : StatefulSet Quantity
    pub read : ConfigMap
    pub at_read : W
    pub root_stored : server.secret_at w mysql.namespace names.secret ≡ some root
    pub repl_stored : server.secret_at w mysql.namespace names.repl_sec ≡ some repl
    pub cfg_stored : server.config_map_at w mysql.namespace names.config ≡ some cfg
    pub sts_stored : server.stateful_set_at w mysql.namespace names.sts ≡ some sts
    pub was_read : (cluster.get_config_map mysql.namespace names.config at_read).0 ≡ ok read
    pub hashed :
        get config_hash_annotation sts.template.annotations
        ≡ some (hash_config_map_data cluster.sha256_hex read.contents)
    pub references :
        ReferencesExist
          (record {
            secret_name = names.secret;
            secret_contents = root.contents;
            repl_secret_name = names.repl_sec;
            repl_secret_contents = repl.contents;
            cfg_name = names.config;
            cfg_contents = cfg.contents;
          })
          sts

  -- An error, or a request to be run again
  abbrev pub EndsEarly : Result Outcome × State Db W → Type 0
  EndsEarly x = ((e : Error) × (x.0 ≡ err e)) ⊎ (x.0 ≡ ok requeue)

  pub fail-EndsEarly :
      (place : Text) (e : Error) (s : State Db W) → EndsEarly (fail_status env cluster place e s)
  unfolding fail_status
  fail-EndsEarly place e s = inl (e, refl)

  pub choose-EndsEarly :
      (b : Bool) (place : Text) (e : Error) (s : State Db W)
      → EndsEarly ((if b then pure requeue else fail_status env cluster place e) s)
  choose-EndsEarly true place e s = inr refl
  choose-EndsEarly false place e s = fail-EndsEarly place e s

  pub handle-EndsEarly :
      (resource : Text) (e : Error) (s : State Db W)
      → EndsEarly (handle_reconcile_error env cluster resource e s)
  unfolding handle_reconcile_error
  handle-EndsEarly resource e s =
      choose-EndsEarly (is_conflict e) (codes "Reconciling " ++ resource) e s

  module _ (mysql : MySql) where
    abbrev pub RootIn : W → Type 0
    RootIn w =
        Stores (server.secret_at w mysql.namespace names.secret)
          (mutate_root_secret cluster.crypto cluster.set_controller_reference mysql)

    abbrev pub ReplIn : W → Type 0
    ReplIn w =
        Stores (server.secret_at w mysql.namespace names.repl_sec)
          (mutate_replication_secret cluster.crypto cluster.set_controller_reference mysql)

    abbrev pub CfgIn : W → Type 0
    CfgIn w =
        Stores (server.config_map_at w mysql.namespace names.config)
          (mutate_config_map cluster mysql)

    abbrev pub StsIn : Text → W → Type 0
    StsIn hash w =
        StoresWith {W = W} server.with_defaults (server.stateful_set_at w mysql.namespace names.sts)
          (λ sts. lift (
            mutate cluster.set_controller_reference cluster.must_parse mysql names.secret
              names.repl_sec names.config hash sts))

    pub all-Deployed :
        (read : ConfigMap) (v w : W)
        → (cluster.get_config_map mysql.namespace names.config v).0 ≡ ok read
        → RootIn w
        → ReplIn w
        → CfgIn w
        → StsIn (hash_config_map_data cluster.sha256_hex read.contents) w
        → Deployed mysql w
    unfolding pod_template
    all-Deployed read v w got (a, a', u, r, ra) (b, b', x, p, rb) (c, c', y, q, rc)
          (d, d', z, m, rd) =
        let hash = hash_config_map_data cluster.sha256_hex read.contents in
        let wrote =
          mutated cluster.set_controller_reference cluster.must_parse mysql names.secret
            names.repl_sec names.config hash d d' m in
        record {
          root = a';
          repl = b';
          cfg = c';
          sts = server.with_defaults d';
          read = read;
          at_read = v;
          root_stored = ra;
          repl_stored = rb;
          cfg_stored = rc;
          sts_stored = rd;
          was_read = got;
          hashed =
              rw
                (
                  server.default_annotations d',
                  wrote.result,
                  get-put config_hash_annotation config_hash_annotation hash d.template.annotations,
                  (text_eq_iff config_hash_annotation config_hash_annotation).1 refl,
                )
                refl;
          references = server.default_references _ d' (
              references_exist cluster mysql names.secret names.repl_sec names.config hash a a' b b'
                c c' d d' u x y r p q m);
        }
