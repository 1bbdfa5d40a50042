-- ===== src/Init/Run.antt =====
-- The init container in a pod of the StatefulSet that the controller writes: its variables are read
-- back, and the addresses that it writes are the ones that the controller connects to.
use yet_another_mysql_operat.Prelude.{
  ℕ, suc, ◌<◌, ◌^◌, ◌≡◌, ◌≢◌, refl, [], ◌∷◌, ◌++◌, some, arith, All, All-append, length, get_elem?,
  append_assoc, false, ◌∙◌,
}
use yet_another_mysql_operat.Prelude.Result.{Error, ok, err}
use yet_another_mysql_operat.Prelude.Text.{Text, Lacks, codes, split, is_empty}
use yet_another_mysql_operat.Prelude.Decimal.{ℤ, pos, show_nat, show_int}
use yet_another_mysql_operat.Prelude.Decimal.RoundTrip.{atoi-show_nat, show_nat-ne-nil}
use yet_another_mysql_operat.Api.{MySql}
use yet_another_mysql_operat.Controller.Objects.{Pod}
use yet_another_mysql_operat.Controller.Names.{build_resource_names}
use yet_another_mysql_operat.Controller.Pods.{host_of, cluster_domain}
use yet_another_mysql_operat.Controller.StatefulSet.{EnvSource, value, field_ref, secret_key_ref}
use yet_another_mysql_operat.Controller.StatefulSet.Template.{init_env}
use yet_another_mysql_operat.Init.{
  HostOps, Identity, identity_of, must_env, must_int_env, get_int_env, get_env, read_identity,
  write_identity, main, seed, next_int,
}
use yet_another_mysql_operat.Init.PodName.{pod_of, pod_name_round_trip}
use yet_another_mysql_operat.Init.Seeds.{split-build_seeds}

-- `mysql.name.namespace.svc.cluster.local`
abbrev pub fqdn_of : MySql → Text
fqdn_of mysql = mysql.name ++ (b'.' ∷ (mysql.namespace ++ (codes ".svc." ++ codes "cluster.local")))

module _ {W : Type 0} (host : HostOps W) where
  -- Where the settings cannot be read, the program fails with that error and leaves the system as
  -- it was.
  pub bad_settings_write_nothing :
      (w : W) (e : Error) → (read_identity host w).0 ≡ err e → main host w ≡ (err e, w)
  unfolding main read_identity
  bad_settings_write_nothing w e h = ground (arith, h)

  module _ (mysql : MySql) (field : Text → Text) where
    -- What the kubelet puts into a variable: the value, or a field of the pod.
    abbrev pub Supplied : Text → EnvSource → Type 0
    Supplied name (value v) = host.getenv name ≡ v
    Supplied name (field_ref path) = host.getenv name ≡ field path
    Supplied name (secret_key_ref s key) = Unit

    -- The container runs in pod number `n` of the set, with the environment of its template and no
    -- other domain.
    pub record RunsAs (n : ℕ) : Type 0 where
      pub environment : All (λ v. Supplied v.name v.source) (init_env mysql)
      pub no_domain : host.getenv (codes "CLUSTER_DOMAIN") ≡ []
      pub pod_name : field (codes "metadata.name") ≡ pod_of mysql.name n
      pub pod_namespace : field (codes "metadata.namespace") ≡ mysql.namespace

-- An object that the operator can run: `r` replicas on port `p`.
pub record IsRunnable (mysql : MySql) (r p : ℕ) : Type 0 where
  pub replicas : mysql.spec.replicas ≡ pos r
  pub port : mysql.spec.port ≡ pos p
  pub some_replica : 0 < r
  pub replicas_fit : r < 2 ^ 63
  pub port_fits : p < 2 ^ 63
  pub named : mysql.name ≢ []
  pub placed : mysql.namespace ≢ []
  pub grouped : mysql.spec.group_replication.group_name ≢ []
  pub name_clean : Lacks b',' mysql.name
  pub namespace_clean : Lacks b',' mysql.namespace

must_env_ok :
    (getenv : Text → Text) (key v : Text) → getenv key ≡ v → v ≢ [] → must_env getenv key ≡ ok v
unfolding must_env
must_env_ok getenv key [] e h = absurd (h refl)
must_env_ok getenv key (c ∷ v) e h = rw e refl

is_empty-show_nat : (n : ℕ) → is_empty (show_nat n) ≡ false
is_empty-show_nat n = ground (arith, show_nat-ne-nil n)

int_print : (z : ℤ) (n : ℕ) → z ≡ pos n → show_int z ≡ show_nat n
unfolding show_int
int_print z n e = rw e refl

module _ (quote getenv : Text → Text) (key : Text) (n : ℕ) (small : n < 2 ^ 63)
    (e : getenv key ≡ show_nat n) where
  must_int_env_ok : must_int_env quote getenv key ≡ ok (pos n)
  unfolding must_int_env
  must_int_env_ok =
      rw (must_env_ok getenv key (show_nat n) e (show_nat-ne-nil n), atoi-show_nat n small) refl

  get_int_env_ok : (default : ℤ) → get_int_env quote getenv key default ≡ ok (pos n)
  unfolding get_int_env
  get_int_env_ok default = rw (e, is_empty-show_nat n, atoi-show_nat n small) refl

module _ {W : Type 0} (host : HostOps W) (mysql : MySql) (field : Text → Text) (r p n : ℕ)
    (runnable : IsRunnable mysql r p) (runs : RunsAs host mysql field n) (below : n < r) where
  abbrev pub written : Identity
  written =
      identity_of (pod_of mysql.name n) mysql.namespace (pos r) (pos p)
        mysql.spec.group_replication.group_name (codes "cluster.local") (pos n) mysql.name

  pod_of-ne-nil : (set : Text) (k : ℕ) → pod_of set k ≢ []
  pod_of-ne-nil [] k e = cc
  pod_of-ne-nil (c ∷ set) k e = cc

  read_identity_ok : (w : W) → read_identity host w ≡ (ok written, w)
  unfolding read_identity get_env init_env
  read_identity_ok w =
      let (a, (b, (c, (d, (e, (f, g)))))) = runs.environment in
      let print = int_print mysql.spec.replicas r runnable.replicas in
      let print_port = int_print mysql.spec.port p runnable.port in
      let round =
        pod_name_round_trip host.quote mysql.name n runnable.named
          (omega (arith, below, runnable.replicas_fit)) in
      rw
        (
          must_env_ok host.getenv (codes "POD_NAME") (pod_of mysql.name n) (a ∙ runs.pod_name)
              (pod_of-ne-nil mysql.name n),
          must_env_ok host.getenv (codes "POD_NAMESPACE") mysql.namespace (b ∙ runs.pod_namespace)
              runnable.placed,
          must_int_env_ok host.quote host.getenv (codes "GR_REPLICAS") r runnable.replicas_fit
              (d ∙ print),
          get_int_env_ok host.quote host.getenv (codes "MYSQL_PORT") p runnable.port_fits
              (e ∙ print_port),
          must_env_ok host.getenv (codes "GR_GROUP_NAME") mysql.spec.group_replication.group_name f
              runnable.grouped,
          runs.no_domain,
          round.0,
          round.1,
        )
        refl

  -- The address of pod number `k`, as the controller connects to it.
  controller_host :
      (k : ℕ) (pod : Pod)
      → pod.name ≡ pod_of mysql.name k
      → host_of pod (build_resource_names mysql) mysql ≡ seed mysql.name (fqdn_of mysql) (pos p) k
  unfolding host_of build_resource_names seed cluster_domain codes
  controller_host k pod e = rw (e, runnable.port) (simp append_assoc refl)

  local_is_seed : written.local_addr ≡ seed mysql.name (fqdn_of mysql) (pos p) n
  unfolding identity_of seed
  local_is_seed = simp append_assoc refl

  fqdn_clean : Lacks b',' (fqdn_of mysql)
  unfolding codes
  fqdn_clean =
      All-append _ mysql.name _ runnable.name_clean
        (omega arith, All-append _ mysql.namespace _ runnable.namespace_clean (ground arith))

  -- In pod number `n` of the set that the controller writes, with that template's environment, the
  -- program reads its settings without touching the system, goes on to write the server id `n + 1`
  -- and as many seeds as there are replicas. The seed of every pod is the host and port that the
  -- controller connects to for that pod, and the pod's own is its local address. The object is
  -- runnable: ports and replicas fit, names are not empty and have no comma.
  pub init_agrees_with_controller :
      (w : W)
      → (read_identity host w ≡ (ok written, w))
        × (main host w ≡ write_identity host written w)
        × (written.server_id ≡ pos (suc n))
        × (length (split b',' written.seeds) ≡ r)
        × (get_elem? (split b',' written.seeds) n ≡ some written.local_addr)
        × ((k : ℕ) (pod : Pod)
            → k < r
            → pod.name ≡ pod_of mysql.name k
            → get_elem? (split b',' written.seeds) k
              ≡ some (host_of pod (build_resource_names mysql) mysql))
  unfolding identity_of next_int main
  init_agrees_with_controller w =
      let (count, at) =
        split-build_seeds mysql.name (fqdn_of mysql) (pos p) runnable.name_clean fqdn_clean r
          runnable.some_replica in
      (
        read_identity_ok w,
        rw (read_identity_ok w) refl,
        ground (arith, below, runnable.replicas_fit),
        count,
        rw local_is_seed (at n below),
        λ k pod l e. rw (controller_host k pod e) (at k l),
      )
