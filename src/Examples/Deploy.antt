-- ===== src/Examples/Deploy.antt =====
-- A run of the theorem on the objects that a reconciliation stores, on a small API server.
use yet_another_mysql_operat.Prelude.{
  ◌≡◌, ◌≢◌, inl, inr, refl, ℕ, suc, true, false, ◌&&◌, [], ◌∷◌, Option, none, some, if◌then◌else◌,
  arith, Bool-cases,
}
use yet_another_mysql_operat.Prelude.Result.{Result, ok, err, not_found, Exec, Result-cases}
use yet_another_mysql_operat.Prelude.Text.{Text, codes, text_eq, text_eq_refl, text_eq_sound}
use yet_another_mysql_operat.Util.{
  cluster_secret_name, default_secret_suffix, replication_secret_suffix,
}
use yet_another_mysql_operat.Controller.Objects.{ObjectMeta, Secret, ConfigMap}
use yet_another_mysql_operat.Controller.Names.{build_resource_names, replication_secret_name}
use yet_another_mysql_operat.Controller.Env.{Env, State}
use yet_another_mysql_operat.Controller.StatefulSet.{StatefulSet}
use yet_another_mysql_operat.Controller.Stages.{Cluster}
use yet_another_mysql_operat.Controller.Reconcile.{reconcile}
use yet_another_mysql_operat.Controller.Reconcile.Server.{Server, Stores}
use yet_another_mysql_operat.Controller.Reconcile.Deploys.{Deploys, reconcile-Deploys}
use yet_another_mysql_operat.Examples.{object, two_pods, adopt}

-- Objects by namespace and name
abbrev Store : Type 0 → Type 0
Store A = Text → Text → Option A

record World : Type 0 where
  drawn : ℕ
  secrets : Store Secret
  config_maps : Store ConfigMap
  sets : Store (StatefulSet Text)

abbrev store : {A : Type 0} → Text → Text → A → Store A → Store A
store namespace name a objects n m =
    if text_eq n namespace && text_eq m name then some a else objects n m

abbrev or_new : {A : Type 0} → Option A → A → A
or_new (some a) b = a
or_new none b = b

-- The function runs on the object that is there, or on the new one, and its result is stored.
abbrev put_made : {A : Type 0} → Text → Text → Store A → Result A → Result (Unit {0}) × Store A
put_made namespace name objects (ok a) = (ok tt, store namespace name a objects)
put_made namespace name objects (err e) = (err e, objects)

module _ {A : Type 0} (meta : ObjectMeta) (objects : Store A) (o : A) (f : A → Exec World A)
    (w : World) where
  abbrev made : Result A
  made = (f (or_new (objects meta.namespace meta.name) o) w).0

  abbrev done : Result (Unit {0}) × Store A
  done = put_made meta.namespace meta.name objects made

  done_stored : done.0 ≡ ok tt → Stores (done.1 meta.namespace meta.name) f
  done_stored e = elim (Result-cases made) [
    | inl (a, h) ↦ (
      or_new (objects meta.namespace meta.name) o,
      a,
      w,
      h,
      rw (h, text_eq_refl meta.namespace, text_eq_refl meta.name) refl,
    )
    | inr (g, h) ↦ ground (arith, e, h)
  ]

  done_others :
      (namespace name : Text) → name ≢ meta.name → done.1 namespace name ≡ objects namespace name
  done_others namespace name other = elim (Bool-cases (text_eq name meta.name)) [
    | inl e ↦ absurd (other (text_eq_sound name meta.name e))
    | inr e ↦ ground (arith, e)
  ]

abbrev draw : ℕ → World → Result Text × World
draw n w = (ok (65 ∷ []), record w { drawn = suc w.drawn })

abbrev found_or : {A : Type 0} → Option A → Result A
found_or (some a) = ok a
found_or none = err (not_found (codes "not found"))

abbrev cluster : Cluster ℕ Text World
cluster = record {
  crypto = record {
    random_bytes = draw;
    generate_key = λ bits w. (ok w.drawn, w);
    marshal_private = λ key. codes "private";
    marshal_public = λ key. ok (codes "public");
    pem_encode = λ kind bytes. bytes;
  };
  set_controller_reference = adopt;
  must_parse = λ t. ok t;
  sha256_hex = λ t. t;
  string_of = λ v. [];
  create_or_update_secret =
      λ o f w. let x = done o.meta w.secrets o f w in (x.0, record w { secrets = x.1 });
  create_or_update_config_map =
      λ o f w. let x = done o.meta w.config_maps o f w in (x.0, record w { config_maps = x.1 });
  create_or_update_service = λ o f w. (ok tt, w);
  create_or_update_stateful_set =
      λ o f w. let x = done o.meta w.sets o f w in (x.0, record w { sets = x.1 });
  get_config_map = λ namespace name w. (found_or (w.config_maps namespace name), w);
  get_stateful_set = λ namespace name w. (found_or (w.sets namespace name), w);
}

server : Server cluster
server = record {
  secret_at = λ w. w.secrets;
  config_map_at = λ w. w.config_maps;
  stateful_set_at = λ w. w.sets;
  secret_stored = λ o f w. done_stored o.meta w.secrets o f w;
  secret_others = λ o f w namespace name. done_others o.meta w.secrets o f w namespace name;
  config_map_stored = λ o f w. done_stored o.meta w.config_maps o f w;
  config_map_secrets = λ o f w. refl;
  read_secrets = λ namespace name w. refl;
  read_config_maps = λ namespace name w. refl;
  service_secrets = λ o f w. refl;
  service_config_maps = λ o f w. refl;
  with_defaults = λ o. o;
  default_annotations = λ o. refl;
  default_references = λ stored o h. h;
  stateful_set_stored = λ o f w. done_stored o.meta w.sets o f w;
  stateful_set_secrets = λ o f w. refl;
  stateful_set_config_maps = λ o f w. refl;
}

abbrev env : Env ℕ World
env = record {
  gr = record {
    new_gr_client = λ dsn w. (ok 0, w);
    close = λ db w. (ok tt, w);
    self_online = λ db w. (ok true, w);
    gtid_sets = λ db w. (ok (record { executed = []; certified = [] }), w);
    ensure_replication_user = λ db pw w. (ok tt, w);
    any_online_member = λ db w. (ok true, w);
    bootstrap = λ db pw w. (ok tt, w);
    join = λ db pw w. (ok tt, w);
    open_compare = λ dsn w. (ok 0, w);
    close_compare = λ db w. (ok tt, w);
    pick_restart_candidate = λ db infos w. (ok [], w);
  };
  kube = record {
    get_mysql_object = λ namespace name w. (ok (object false []), w);
    get_secret = λ namespace name w. (found_or (w.secrets namespace name), w);
    list_pods = λ namespace app w. (ok two_pods, w);
    update_status = λ m w. (ok tt, w);
  };
  retry = λ f. f;
}

abbrev start : State ℕ World
start = record {
  world = record {
    drawn = 0;
    secrets = λ n m. none;
    config_maps = λ n m. none;
    sets = λ n m. none;
  };
  mysql = object true [];
  trace = [];
}

secrets_apart : cluster_secret_name (object false []) ≢ replication_secret_name (object false [])
unfolding cluster_secret_name replication_secret_name default_secret_suffix
    replication_secret_suffix codes
secrets_apart e = ground (arith, e)

reconcile-Deploys_example :
    Deploys env cluster server
      (build_resource_names (object false []))
      (codes "prod")
      (codes "db")
      (object false [])
      (reconcile env cluster (codes "prod") (codes "db") start)
reconcile-Deploys_example =
    reconcile-Deploys env cluster server (codes "prod") (codes "db") start (object false []) refl
      secrets_apart
