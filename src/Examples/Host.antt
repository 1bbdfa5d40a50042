-- ===== src/Examples/Host.antt =====
-- Runs of the theorems on the secrets, the StatefulSet and the init container of its pods.
use yet_another_mysql_operat.Prelude.{
  ◌≡◌, ◌<◌, ℕ, suc, refl, [], ◌∷◌, none, some, true, false, if◌then◌else◌, arith, length, get_elem?,
}
use yet_another_mysql_operat.Prelude.Result.{Result, ok, err, plain}
use yet_another_mysql_operat.Prelude.Text.{Text, codes, text_eq, split, Lacks}
use yet_another_mysql_operat.Prelude.Decimal.{pos, show_int}
use yet_another_mysql_operat.Prelude.Assoc.{get, is_some, put}
use yet_another_mysql_operat.Api.{MySql}
use yet_another_mysql_operat.Util.{
  replication_user_env, replication_rsa_private_key, replication_rsa_public_key,
}
use yet_another_mysql_operat.Controller.Objects.{ObjectMeta, Secret, ConfigMap, Pod, named}
use yet_another_mysql_operat.Controller.Names.{build_resource_names}
use yet_another_mysql_operat.Controller.Pods.{host_of}
use yet_another_mysql_operat.Controller.Secrets.{
  mutate_root_secret, mutate_replication_secret, put_password, put_key_pair,
  generate_replication_rsa_key_pair,
}
use yet_another_mysql_operat.Controller.Secrets.Laws.{
  replication_secret_complete, replication_secret_stable,
}
use yet_another_mysql_operat.Controller.StatefulSet.{StatefulSet}
use yet_another_mysql_operat.Controller.StatefulSet.Template.{init_env, mutate_stateful_set}
use yet_another_mysql_operat.Controller.StatefulSet.Template.Laws.{
  MountsResolve, mounts_resolve, template_stable,
}
use yet_another_mysql_operat.Controller.StatefulSet.Template.References.{
  ReferencesExist, references_exist,
}
use yet_another_mysql_operat.Controller.Stages.{Cluster, mutate_config_map, empty_template}
use yet_another_mysql_operat.Init.{
  HostOps, Identity, parse_ordinal, derive_service, read_identity, write_identity, main,
  build_seeds, seed,
}
use yet_another_mysql_operat.Init.PodName.{pod_of, pod_name_round_trip}
use yet_another_mysql_operat.Init.Seeds.{split-build_seeds}
use yet_another_mysql_operat.Init.Run.{RunsAs, IsRunnable, written, init_agrees_with_controller}
use yet_another_mysql_operat.Examples.{object, adopt, crypto, cluster_with}

abbrev owner : MySql
owner = object false []

abbrev cluster : Cluster ℕ Text ℕ
cluster = cluster_with (ok tt) (err (plain []))

abbrev empty_secret : Text → Secret
empty_secret name = record { meta = named name (codes "prod"); contents = [] }

abbrev value_or : {A : Type 0} → A → Result A → A
value_or d (ok a) = a
value_or d (err e) = d

abbrev root_start : Secret
root_start = empty_secret (codes "root")

abbrev root_end : Secret
root_end = value_or root_start (mutate_root_secret crypto adopt owner root_start 0).0

root_ok : (mutate_root_secret crypto adopt owner root_start 0).0 ≡ ok root_end
unfolding mutate_root_secret put_password get
root_ok = refl

abbrev repl_start : Secret
repl_start = empty_secret (codes "repl")

abbrev repl_end : Secret
repl_end = value_or repl_start (mutate_replication_secret crypto adopt owner repl_start 0).0

repl_ok : (mutate_replication_secret crypto adopt owner repl_start 0).0 ≡ ok repl_end
unfolding mutate_replication_secret put_password put_key_pair generate_replication_rsa_key_pair get
    put text_eq replication_user_env replication_rsa_private_key
repl_ok = refl

replication_secret_complete_example :
    (is_some (get replication_user_env repl_end.contents) ≡ true)
    × (is_some (get replication_rsa_private_key repl_end.contents) ≡ true)
    × (is_some (get replication_rsa_public_key repl_end.contents) ≡ true)
    × ((v : Text)
        → get replication_user_env repl_start.contents ≡ some v
        → get replication_user_env repl_end.contents ≡ some v)
replication_secret_complete_example =
    replication_secret_complete crypto adopt owner repl_start repl_end 0 repl_ok

abbrev again : ObjectMeta
again = record repl_end.meta { owner_references = codes "db" ∷ [] }

replication_secret_stable_example :
    mutate_replication_secret crypto adopt owner repl_end 9
    ≡ (ok (record repl_end { meta = again }), 9)
replication_secret_stable_example =
    replication_secret_stable crypto adopt owner repl_start repl_end 0 9 again repl_ok refl

abbrev cfg_start : ConfigMap
cfg_start = record { meta = named (codes "db-mycnf") (codes "prod"); contents = [] }

abbrev cfg_end : ConfigMap
cfg_end = value_or cfg_start (mutate_config_map cluster owner cfg_start 0).0

cfg_ok : (mutate_config_map cluster owner cfg_start 0).0 ≡ ok cfg_end
unfolding mutate_config_map
cfg_ok = refl

abbrev sts_start : StatefulSet Text
sts_start = record {
  meta = named (codes "db") (codes "prod");
  replicas = none;
  service_name = [];
  match_labels = [];
  template = empty_template;
  volume_claim_templates = [];
  ready_replicas = pos 0;
}

abbrev set_of : StatefulSet Text → Result (StatefulSet Text)
set_of =
    mutate_stateful_set adopt (λ t. ok t) owner (codes "root") (codes "repl") (codes "db-mycnf")
      (codes "hash")

abbrev sts_end : StatefulSet Text
sts_end = value_or sts_start (set_of sts_start)

sts_ok : set_of sts_start ≡ ok sts_end
unfolding mutate_stateful_set
sts_ok = refl

mounts_resolve_example : MountsResolve sts_end
mounts_resolve_example =
    mounts_resolve adopt (λ t. ok t) owner (codes "root") (codes "repl") (codes "db-mycnf")
      (codes "hash") sts_start sts_end sts_ok

template_stable_example : set_of sts_end ≡ ok sts_end
unfolding mutate_stateful_set
template_stable_example =
    template_stable adopt (λ t. ok t) owner (codes "root") (codes "repl") (codes "db-mycnf")
      (codes "hash") sts_start sts_end sts_ok refl

references_exist_example :
    ReferencesExist
      (record {
        secret_name = codes "root";
        secret_contents = root_end.contents;
        repl_secret_name = codes "repl";
        repl_secret_contents = repl_end.contents;
        cfg_name = codes "db-mycnf";
        cfg_contents = cfg_end.contents;
      })
      sts_end
references_exist_example =
    references_exist cluster owner (codes "root") (codes "repl") (codes "db-mycnf") (codes "hash")
      root_start root_end repl_start repl_end cfg_start cfg_end sts_start sts_end 0 0 0 root_ok
      repl_ok cfg_ok sts_ok

pod_name_round_trip_example :
    (parse_ordinal (λ t. t) (pod_of (codes "my-db") 12) ≡ ok (pos 12))
    × (derive_service (λ t. t) (pod_of (codes "my-db") 12) ≡ ok (codes "my-db"))
pod_name_round_trip_example =
    pod_name_round_trip (λ t. t) (codes "my-db") 12 (λ e. unfold codes in cc) (omega arith)

db-Lacks : Lacks b',' (codes "db")
unfolding codes
db-Lacks = ground arith

prod-Lacks : Lacks b',' (codes "prod")
unfolding codes
prod-Lacks = ground arith

split-build_seeds_example :
    (length (split b',' (build_seeds (codes "db") (codes "prod") (pos 3) (pos 3306))) ≡ 3)
    × ((k : ℕ)
        → k < 3
        → get_elem? (split b',' (build_seeds (codes "db") (codes "prod") (pos 3) (pos 3306))) k
          ≡ some (seed (codes "db") (codes "prod") (pos 3306) k))
split-build_seeds_example =
    split-build_seeds (codes "db") (codes "prod") (pos 3306) db-Lacks prod-Lacks 3 (omega arith)

-- The environment of the pod `db-1`.
abbrev variable : Text → Text
variable key =
    if text_eq key (codes "POD_NAME")
    then pod_of (codes "db") 1
    else if text_eq key (codes "POD_NAMESPACE")
    then codes "prod"
    else if text_eq key (codes "GR_REPLICAS")
    then show_int (pos 2)
    else if text_eq key (codes "MYSQL_PORT")
    then show_int (pos 3306)
    else if text_eq key (codes "GR_GROUP_NAME")
    then codes "aaaa"
    else []

abbrev field : Text → Text
field path =
    if text_eq path (codes "metadata.name")
    then pod_of (codes "db") 1
    else if text_eq path (codes "metadata.namespace")
    then codes "prod"
    else []

abbrev host_with : (Text → Text) → HostOps ℕ
host_with getenv = record {
  getenv = getenv;
  quote = λ t. t;
  mkdir_all = λ dir w. (ok tt, suc w);
  create_file = λ path contents w. (ok tt, suc w);
}

owner_runs : IsRunnable owner 2 3306
owner_runs = record {
  replicas = refl;
  port = refl;
  some_replica = omega arith;
  replicas_fit = omega arith;
  port_fits = omega arith;
  named = λ e. unfold codes in cc;
  placed = λ e. unfold codes in cc;
  grouped = λ e. unfold codes in cc;
  name_clean = db-Lacks;
  namespace_clean = prod-Lacks;
}

runs_as : RunsAs (host_with variable) owner field 1
unfolding init_env text_eq codes show_int
runs_as = record {
  environment = (refl, (refl, (refl, (refl, (refl, (refl, tt))))));
  no_domain = refl;
  pod_name = refl;
  pod_namespace = refl;
}

one_below_two : 1 < 2
one_below_two = omega arith

abbrev files : Identity
files = written (host_with variable) owner field 2 3306 1 owner_runs runs_as one_below_two

init_agrees_with_controller_example :
    (read_identity (host_with variable) 0 ≡ (ok files, 0))
    × (main (host_with variable) 0 ≡ write_identity (host_with variable) files 0)
    × (files.server_id ≡ pos (suc 1))
    × (length (split b',' files.seeds) ≡ 2)
    × (get_elem? (split b',' files.seeds) 1 ≡ some files.local_addr)
    × ((k : ℕ) (pod : Pod)
        → k < 2
        → pod.name ≡ pod_of (codes "db") k
        → get_elem? (split b',' files.seeds) k
          ≡ some (host_of pod (build_resource_names owner) owner))
init_agrees_with_controller_example =
    init_agrees_with_controller (host_with variable) owner field 2 3306 1 owner_runs runs_as
      one_below_two 0
