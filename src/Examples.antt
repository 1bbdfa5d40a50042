-- ===== src/Examples.antt =====
-- Concrete surroundings for the runs below this module: a server, a group replication client, a
-- Kubernetes client and a custom resource.
mod Client
mod Config
mod Group
mod Passes
mod Whole
mod Host
mod Start
mod Servers
mod Restart
mod Sql
mod Deploy
mod Copies
use yet_another_mysql_operat.Prelude.{ℕ, suc, refl, Bool, true, false, List, [], ◌∷◌, if◌then◌else◌}
use yet_another_mysql_operat.Prelude.Result.{
  Result, ok, err, Error, plain, conflict, not_found, no_rows, Exec,
}
use yet_another_mysql_operat.Prelude.Text.{Text, codes, text_eq}
use yet_another_mysql_operat.Prelude.Decimal.{ℤ, pos}
use yet_another_mysql_operat.Api.{MySql, MySqlStatus, int, str}
use yet_another_mysql_operat.Util.{root_user_env, replication_user_env}
use yet_another_mysql_operat.GrClient.Candidate.{GtidInfo}
use yet_another_mysql_operat.GrClient.Sql.{SqlOps, Session}
use yet_another_mysql_operat.Controller.Objects.{Pod, Secret, ObjectMeta, named}
use yet_another_mysql_operat.Controller.Crypto.{CryptoOps}
use yet_another_mysql_operat.Controller.StatefulSet.{StatefulSet}
use yet_another_mysql_operat.Controller.Stages.{Cluster}
use yet_another_mysql_operat.Controller.Names.{ResourceNames, build_resource_names}
use yet_another_mysql_operat.Controller.Env.{Env, State, KubeOps, GrOps}
use yet_another_mysql_operat.Controller.Retry.{IsRetry, last}

-- What is left of a set of transactions: all of it, unless the sets are the same.
abbrev pub rest_of : Text → Text → Text
rest_of a b = if text_eq a b then [] else a

abbrev pub subtract_args : List Text → Result Text
subtract_args (a ∷ b ∷ []) = ok (rest_of a b)
subtract_args _ = err no_rows

abbrev pub tick_left : ℕ → Result (Unit {0}) × ℕ
tick_left (suc w) = (ok tt, w)
tick_left w = (err (plain (codes "context deadline exceeded")), w)

-- A server whose statements do as `exec` says. A query without two arguments finds no row. The world
-- is the number of ticks until the context ends.
abbrev pub server : Result (Unit {0}) → Result (Unit {0}) → SqlOps ℕ ℕ
server ping exec = record {
  open_db = λ dsn w. (ok 7, w);
  ping = λ db w. (ping, w);
  query_row = λ db q args w. (subtract_args args, w);
  exec = λ db q args w. (exec, w);
  close_db = λ db w. (ok tt, w);
  wait_tick = λ tick w. tick_left w;
}

abbrev pub refused : Result (Unit {0})
refused = err (plain (codes "refused"))

abbrev pub fresh : ℕ → Session ℕ ℕ
fresh w = record { world = w; sent = [] }

abbrev pub status_of : Bool → Text → MySqlStatus
status_of bootstrapped candidate = record {
  phase = [];
  message = [];
  ready_replicas = pos 0;
  current_replicas = pos 0;
  group_replication_bootstrapped = bootstrapped;
  restart_candidate = candidate;
}

abbrev pub object : Bool → Text → MySql
object bootstrapped candidate = record {
  name = codes "db";
  namespace = codes "prod";
  resource_version = 1;
  spec = record {
    image = codes "percona/percona-server:8.4";
    init_image = codes "init";
    storage_class_name = [];
    storage_size = codes "10Gi";
    port = pos 3306;
    root_password_secret_name = [];
    mysql_conf = (codes "max-connections", str (codes "900")) ∷ [];
    replicas = pos 2;
    group_replication = record {
      group_name = codes "aaaa";
      mode = codes "SinglePrimary";
      replication_user_secret = [];
      seed_count = pos 0;
      force_bootstrap = false;
      member_weight = pos 0;
    };
  };
  status = status_of bootstrapped candidate;
}

abbrev pub pod_named : Text → Pod
pod_named name = record {
  name = name;
  pod_ip = codes "10.0.0.1";
  conditions = record { kind = codes "Ready"; status = codes "True" } ∷ [];
}

abbrev pub two_pods : List Pod
two_pods = pod_named (codes "db-0") ∷ pod_named (codes "db-1") ∷ []

abbrev pub password_secret : Secret
password_secret = record {
  meta = named (codes "db") (codes "prod");
  contents = (root_user_env, codes "r") ∷ (replication_user_env, codes "s") ∷ [];
}

-- Each client has the number of the world; what the servers answer is given.
abbrev pub gr_client : Bool → Bool → Result (Unit {0}) → GrOps ℕ ℕ
gr_client online any_online accepts = record {
  new_gr_client = λ dsn w. (ok w, suc w);
  close = λ db w. (ok tt, w);
  self_online = λ db w. (ok online, w);
  gtid_sets = λ db w. (ok (record { executed = codes "u:1-5"; certified = [] }), w);
  ensure_replication_user = λ db pw w. (ok tt, w);
  any_online_member = λ db w. (ok any_online, w);
  bootstrap = λ db pw w. (accepts, w);
  join = λ db pw w. (accepts, w);
  open_compare = λ dsn w. (ok w, suc w);
  close_compare = λ db w. (ok tt, w);
  pick_restart_candidate = λ db infos w. (ok (codes "db-1"), w);
}

abbrev pub kube_of : Result MySql → KubeOps ℕ
kube_of stored = record {
  get_mysql_object = λ namespace name w. (stored, w);
  get_secret = λ namespace name w. (ok password_secret, w);
  list_pods = λ namespace app w. (ok two_pods, w);
  update_status = λ m w. (ok tt, w);
}

abbrev pub env_of : GrOps ℕ ℕ → Result MySql → Env ℕ ℕ
env_of gr stored = record { gr = gr; kube = kube_of stored; retry = λ f. f }

abbrev pub retries_once : (gr : GrOps ℕ ℕ) (stored : Result MySql) → IsRetry (env_of gr stored)
retries_once gr stored = record { runs = λ f s. last s refl }

abbrev pub at_start : MySql → State ℕ ℕ
at_start m = record { world = 0; mysql = m; trace = [] }

abbrev pub names_of : Bool → Text → ResourceNames
names_of bootstrapped candidate = build_resource_names (object bootstrapped candidate)

-- The cluster answers a write of a secret, and a read of the StatefulSet, as given.
abbrev pub adopt : MySql → ObjectMeta → Result ObjectMeta
adopt m meta = ok (record meta { owner_references = m.name ∷ [] })

abbrev pub crypto : CryptoOps ℕ ℕ
crypto = record {
  random_bytes = λ n w. (ok (65 ∷ []), suc w);
  generate_key = λ bits w. (ok w, suc w);
  marshal_private = λ key. codes "private";
  marshal_public = λ key. ok (codes "public");
  pem_encode = λ kind bytes. bytes;
}

abbrev pub cluster_with : Result (Unit {0}) → Result (StatefulSet Text) → Cluster ℕ Text ℕ
cluster_with secrets sts = record {
  crypto = crypto;
  set_controller_reference = adopt;
  must_parse = λ t. ok t;
  sha256_hex = λ t. t;
  string_of = λ v. [];
  create_or_update_secret = λ secret f w. (secrets, w);
  create_or_update_config_map = λ cfg f w. (ok tt, w);
  create_or_update_service = λ svc f w. (ok tt, w);
  create_or_update_stateful_set = λ sts f w. (ok tt, w);
  get_config_map =
      λ namespace name w. (ok (record { meta = named name namespace; contents = [] }), w);
  get_stateful_set = λ namespace name w. (sts, w);
}
