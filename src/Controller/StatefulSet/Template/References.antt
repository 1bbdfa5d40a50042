-- ===== src/Controller/StatefulSet/Template/References.antt =====
-- The keys of secrets and of the config map that the StatefulSet refers to are the ones that the
-- earlier stages of the reconciliation have put there.
use yet_another_mysql_operat.Prelude.{◌≡◌, refl, ◌⊎◌, inl, inr, [], All, arith, ◌++◌, true}
use yet_another_mysql_operat.Prelude.Result.{ok, Result-cases}
use yet_another_mysql_operat.Prelude.Text.{Text, text_eq_iff, codes}
use yet_another_mysql_operat.Prelude.Assoc.{Map, get, put, is_some}
use yet_another_mysql_operat.Prelude.Assoc.Laws.{get-put}
use yet_another_mysql_operat.Util.{
  root_user_env, replication_user_env, replication_rsa_private_key, replication_rsa_public_key,
}
use yet_another_mysql_operat.ConfigMap.{render_mysql_config}
use yet_another_mysql_operat.Controller.Objects.{ObjectMeta, Secret, ConfigMap}
use yet_another_mysql_operat.Controller.Secrets.{mutate_root_secret, mutate_replication_secret}
use yet_another_mysql_operat.Controller.Secrets.Laws.{root_secret_kept, replication_secret_complete}
use yet_another_mysql_operat.Controller.StatefulSet.{
  EnvSource, value, field_ref, secret_key_ref, VolumeSource, config_map, empty_dir, secret,
  StatefulSet,
}
use yet_another_mysql_operat.Controller.StatefulSet.Template.{
  init_container, mysql_container, volumes, pod_template, init_env,
}
use yet_another_mysql_operat.Controller.StatefulSet.Template.Laws.{mutate, mutated, filled}
use yet_another_mysql_operat.Controller.Stages.{Cluster, mutate_config_map}
use yet_another_mysql_operat.Api.{MySql}

-- The objects of the namespace that hold data: a kind and a name, with the contents.
pub record Stored : Type 0 where
  pub secret_name : Text
  pub secret_contents : Map Text
  pub repl_secret_name : Text
  pub repl_secret_contents : Map Text
  pub cfg_name : Text
  pub cfg_contents : Map Text

module _ (stored : Stored) where
  abbrev pub SecretHas : Text → Text → Type 0
  SecretHas name key =
      ((name ≡ stored.secret_name) × (is_some (get key stored.secret_contents) ≡ true))
      ⊎ ((name ≡ stored.repl_secret_name) × (is_some (get key stored.repl_secret_contents) ≡ true))

  abbrev pub SourceExists : EnvSource → Type 0
  SourceExists (value v) = Unit
  SourceExists (field_ref path) = Unit
  SourceExists (secret_key_ref name key) = SecretHas name key

  abbrev pub VolumeExists : VolumeSource → Type 0
  VolumeExists (config_map name items) =
      (name ≡ stored.cfg_name) × All (λ item. is_some (get item.0 stored.cfg_contents) ≡ true) items
  VolumeExists empty_dir = Unit
  VolumeExists (secret name items) = All (λ item. SecretHas name item.0) items

  -- Every key that a container's environment or a volume refers to is there.
  abbrev pub ReferencesExist : {Quantity : Type 0} → StatefulSet Quantity → Type 0
  ReferencesExist sts =
      All (λ c. All (λ v. SourceExists v.source) c.env)
        (sts.template.init_containers ++ sts.template.containers)
      × All (λ v. VolumeExists v.source) sts.template.volumes

module _ {Key Quantity W : Type 0} (cluster : Cluster Key Quantity W) (mysql : MySql) where
  config_map_has :
      (cfg cfg' : ConfigMap) (w : W)
      → (mutate_config_map cluster mysql cfg w).0 ≡ ok cfg'
      → is_some (get (codes "my.cnf") cfg'.contents) ≡ true
  unfolding mutate_config_map
  config_map_has cfg cfg' w e =
      elim (Result-cases (cluster.set_controller_reference mysql cfg.meta)) [
        | inl (meta, h) ↦
            let key = codes "my.cnf" in
            let text = render_mysql_config cluster.string_of [] mysql.spec.mysql_conf in
            let same : cfg'.contents ≡ put key text cfg.contents = ground arith in
            rw same (ground (arith, get-put key key text cfg.contents, text_eq_iff key key))
        | inr (f, h) ↦ ground arith
      ]

  module _ (secret_name repl_secret_name cfg_name config_hash : Text) where
    filled_references :
        (root repl cfg : Map Text) (meta : ObjectMeta) (storage : Quantity)
        (sts : StatefulSet Quantity)
        → is_some (get root_user_env root) ≡ true
        → (is_some (get replication_user_env repl) ≡ true)
          × (is_some (get replication_rsa_private_key repl) ≡ true)
          × (is_some (get replication_rsa_public_key repl) ≡ true)
        → is_some (get (codes "my.cnf") cfg) ≡ true
        → ReferencesExist
            (record {
              secret_name = secret_name;
              secret_contents = root;
              repl_secret_name = repl_secret_name;
              repl_secret_contents = repl;
              cfg_name = cfg_name;
              cfg_contents = cfg;
            })
            (filled cluster.set_controller_reference cluster.must_parse mysql secret_name
              repl_secret_name cfg_name config_hash meta storage sts)
    unfolding pod_template init_container init_env mysql_container volumes
    filled_references root repl cfg meta storage sts r (p, k, l) c = (
      ((tt, (tt, (tt, (tt, (tt, (tt, tt)))))), ((inl (refl, r), (inr (refl, p), tt)), tt)),
      ((refl, (c, tt)), (tt, ((inr (refl, k), (inr (refl, l), tt)), (tt, tt)))),
    )

    -- Once the two secrets and the config map have been written, whatever they held before, the
    -- StatefulSet that is written next refers only to keys that are there.
    pub references_exist :
        (root root' repl repl' : Secret) (cfg cfg' : ConfigMap) (sts sts' : StatefulSet Quantity)
        (u v w : W)
        → (mutate_root_secret cluster.crypto cluster.set_controller_reference mysql root u).0
          ≡ ok root'
        → (mutate_replication_secret cluster.crypto cluster.set_controller_reference mysql repl v).0
          ≡ ok repl'
        → (mutate_config_map cluster mysql cfg w).0 ≡ ok cfg'
        → mutate cluster.set_controller_reference cluster.must_parse mysql secret_name
            repl_secret_name cfg_name config_hash sts
          ≡ ok sts'
        → ReferencesExist
            (record {
              secret_name = secret_name;
              secret_contents = root'.contents;
              repl_secret_name = repl_secret_name;
              repl_secret_contents = repl'.contents;
              cfg_name = cfg_name;
              cfg_contents = cfg'.contents;
            })
            sts'
    references_exist root root' repl repl' cfg cfg' sts sts' u v w a b c d =
        let m =
          mutated cluster.set_controller_reference cluster.must_parse mysql secret_name
            repl_secret_name cfg_name config_hash sts sts' d in
        let (r, p, q, keeps) =
          replication_secret_complete cluster.crypto cluster.set_controller_reference mysql repl
            repl' v b in
        rw m.result (
          filled_references root'.contents repl'.contents cfg'.contents m.meta m.storage sts
            (root_secret_kept cluster.crypto cluster.set_controller_reference mysql root root' u
              a).1
            (r, p, q) (config_map_has cfg cfg' w c))
