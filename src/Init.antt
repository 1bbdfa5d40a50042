-- ===== src/Init.antt =====
-- cmd/init/main.go: the init container, which writes two option files for the pod that it runs in.
-- `fail` prints its message and exits: here it is an error. `os.Getenv`, `strconv.Quote` (the verb
-- `%q`) and the file system are parameters.
pub mod PodName
pub mod Seeds
pub mod Run
use yet_another_mysql_operat.Prelude.{
  ℕ, zero, suc, List, [], ◌∷◌, ◌++◌, Option, none, some, if◌then◌else◌, ◌==◌, ◌-◌, ◌^◌,
}
use yet_another_mysql_operat.Prelude.Result.{
  Result, ok, err, plain, Exec, pure, raise, lift, annotate, ◌>>=◌, ◌>>◌,
}
use yet_another_mysql_operat.Prelude.Text.{
  Text, codes, is_empty, join, split, last_part, before_last,
}
use yet_another_mysql_operat.Prelude.Decimal.{
  ℤ, pos, negsuc, NumError, syntax, range, atoi, show_nat, show_int,
}

unfoldable pub conf_dir : Text
unfolding codes
conf_dir = codes "/etc/mysql/conf.d"

unfoldable pub identity_file : Text
unfolding codes
identity_file = codes "10-identity.cnf"

unfoldable pub group_repl_file : Text
unfolding codes
group_repl_file = codes "20-gr.cnf"

abbrev pub default_mysql_port : ℤ
default_mysql_port = pos 3306

-- `ordinal + serverIDOffset`, on 64 bits.
unfoldable pub next_int : ℤ → ℤ
next_int (pos n) = if n == 2 ^ 63 - 1 then negsuc n else pos (suc n)
next_int (negsuc zero) = pos 0
next_int (negsuc (suc n)) = negsuc n

-- The error's text: `strconv.Atoi: parsing "x": invalid syntax`.
unfoldable pub num_error : (Text → Text) → Text → NumError → Text
num_error quote v syntax = codes "strconv.Atoi: parsing " ++ (quote v ++ codes ": invalid syntax")
num_error quote v range =
    codes "strconv.Atoi: parsing " ++ (quote v ++ codes ": value out of range")

module _ (getenv : Text → Text) where
  unfoldable pub get_env : Text → Text → Text
  get_env key default = if is_empty (getenv key) then default else getenv key

  unfoldable pub must_env : Text → Result Text
  must_env key =
      if is_empty (getenv key) then err (plain (codes "missing env " ++ key)) else ok (getenv key)

module _ (quote : Text → Text) where
  abbrev pub int_or_fail : Text → Text → ℤ × Option NumError → Result ℤ
  int_or_fail key v (i, none) = ok i
  int_or_fail key v (i, some e) =
      err (plain (codes "env " ++ (key ++ (codes " is not int: " ++ num_error quote v e))))

  module _ (getenv : Text → Text) where
    abbrev pub int_of : Text → Result Text → Result ℤ
    int_of key (ok v) = int_or_fail key v (atoi v)
    int_of key (err e) = err e

    unfoldable pub must_int_env : Text → Result ℤ
    unfolding must_env
    must_int_env key = int_of key (must_env getenv key)

    unfoldable pub get_int_env : Text → ℤ → Result ℤ
    get_int_env key default =
        if is_empty (getenv key)
        then ok default
        else int_or_fail key (getenv key) (atoi (getenv key))

  abbrev pub ordinal_or_fail : Text → ℤ × Option NumError → Result ℤ
  ordinal_or_fail text (i, none) = ok i
  ordinal_or_fail text (i, some e) = err (plain (codes "invalid ordinal " ++ quote text))

  -- `strings.Split` returns at least one part, so the branch `len(parts) == 0` is never taken.
  unfoldable pub parse_ordinal : Text → Result ℤ
  parse_ordinal pod = let text = last_part (split b'-' pod) in ordinal_or_fail text (atoi text)

  -- A dash is needed, and not as the first byte.
  abbrev pub service_or_fail : Text → Option Text → Result Text
  service_or_fail pod (some (c ∷ s)) = ok (c ∷ s)
  service_or_fail pod _ = err (plain (codes "cannot derive service from pod name " ++ quote pod))

  unfoldable pub derive_service : Text → Result Text
  derive_service pod = service_or_fail pod (before_last b'-' pod)

-- `fmt.Sprintf("%s-%d.%s:%d", service, i, svcFQDN, port)`
unfoldable pub seed : Text → Text → ℤ → ℕ → Text
seed service fqdn port i =
    service ++ (b'-' ∷ (show_nat i ++ (b'.' ∷ (fqdn ++ (b':' ∷ show_int port)))))

-- The loop of `buildSeeds`, for the `n` rounds from `i` on.
unfoldable pub seed_hosts : Text → Text → ℤ → ℕ → ℕ → List Text
seed_hosts service fqdn port i zero = []
seed_hosts service fqdn port i (suc n) =
    seed service fqdn port i ∷ seed_hosts service fqdn port (suc i) n

-- The rounds of `for i := 0; i < replicas; i++`.
abbrev pub rounds : ℤ → ℕ
rounds (pos n) = n
rounds (negsuc n) = 0

unfoldable pub build_seeds : Text → Text → ℤ → ℤ → Text
unfolding seed_hosts
build_seeds service fqdn replicas port =
    join b',' (seed_hosts service fqdn port 0 (rounds replicas))

-- What the program asks of the system; a failure to write carries the system's text.
pub record HostOps (W : Type 0) : Type 0 where
  pub getenv : Text → Text
  pub quote : Text → Text
  pub mkdir_all : Text → Exec W (Unit {0})
  pub create_file : Text → Text → Exec W (Unit {0})

-- What `main` has computed when it starts to write.
pub record Identity : Type 0 where
  pub server_id : ℤ
  pub report_host : Text
  pub local_addr : Text
  pub seeds : Text
  pub group_name : Text

unfoldable pub identity_of : Text → Text → ℤ → ℤ → Text → Text → ℤ → Text → Identity
unfolding next_int build_seeds
identity_of pod_name pod_ns replicas port group_name domain ordinal service =
    let fqdn = service ++ (b'.' ∷ (pod_ns ++ (codes ".svc." ++ domain))) in
    let report_host = pod_name ++ (b'.' ∷ fqdn) in
    record {
      server_id = next_int ordinal;
      report_host = report_host;
      local_addr = report_host ++ (b':' ∷ show_int port);
      seeds = build_seeds service fqdn replicas port;
      group_name = group_name;
    }

unfoldable pub identity_text : Identity → Text
identity_text id =
    codes "[mysqld]\nserver-id = "
    ++ (show_int id.server_id ++ (codes "\nreport_host = " ++ (id.report_host ++ codes "\n")))

unfoldable pub group_repl_text : Identity → Text
group_repl_text id =
    codes "[mysqld]\nloose-group_replication_local_address = "
    ++ (id.local_addr
        ++ (codes "\nloose-group_replication_group_seeds = "
            ++ (id.seeds
                ++ (codes "\nloose-group_replication_group_name = "
                    ++ (id.group_name
                        ++ codes
                            "\nloose-group_replication_start_on_boot = off\nloose-group_replication_bootstrap_group = off\nloose-group_replication_communication_stack = MYSQL\nplugin_load_add = 'group_replication.so'\n")))))

module _ {W : Type 0} (host : HostOps W) where
  -- `writeFile`, for a file in `confDir`: its `filepath.Dir` is that directory.
  unfoldable pub write_file : Text → Text → Exec W (Unit {0})
  write_file file contents = do
    annotate (codes "mkdir " ++ conf_dir) (host.mkdir_all conf_dir)
    annotate (codes "write " ++ (conf_dir ++ (b'/' ∷ file)))
        (host.create_file (conf_dir ++ (b'/' ∷ file)) contents)

  -- `main` up to its first write.
  unfoldable pub read_identity : Exec W Identity
  unfolding must_env must_int_env get_int_env get_env parse_ordinal derive_service
  read_identity = do
    pod_name ← lift (must_env host.getenv (codes "POD_NAME"))
    pod_ns ← lift (must_env host.getenv (codes "POD_NAMESPACE"))
    replicas ← lift (must_int_env host.quote host.getenv (codes "GR_REPLICAS"))
    port ← lift (get_int_env host.quote host.getenv (codes "MYSQL_PORT") default_mysql_port)
    group_name ← lift (must_env host.getenv (codes "GR_GROUP_NAME"))
    let domain = get_env host.getenv (codes "CLUSTER_DOMAIN") (codes "cluster.local")
    ordinal ← lift (parse_ordinal host.quote pod_name)
    service ← lift (derive_service host.quote pod_name)
    pure (identity_of pod_name pod_ns replicas port group_name domain ordinal service)

  unfoldable pub write_identity : Identity → Exec W (Unit {0})
  unfolding write_file
  write_identity id = do
    write_file identity_file (identity_text id)
    write_file group_repl_file (group_repl_text id)

  unfoldable pub main : Exec W (Unit {0})
  main = do id ← read_identity; write_identity id
