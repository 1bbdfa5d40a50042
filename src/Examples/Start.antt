-- ===== src/Examples/Start.antt =====
-- Runs of the theorems on the start of the manager and on its command line.
use yet_another_mysql_operat.Prelude.{◌≡◌, refl, ℕ, suc, true, false, [], ◌∷◌, map, some, none}
use yet_another_mysql_operat.Prelude.Result.{Result, ok, err, plain}
use yet_another_mysql_operat.Prelude.Text.{codes, text_eq, split, join}
use yet_another_mysql_operat.Prelude.Path.{clean, join_path}
use yet_another_mysql_operat.Manager.CommandLine.{
  Flags, OtherFlags, default_flags, parse, parsed, exit_help, exit_error, read_argument, read_name,
  split_value, find_flag, set_flag, flag_name, parse_bool,
}
use yet_another_mysql_operat.Manager.CommandLine.RoundTrip.{
  command_line, command_words, parse-command_line,
}
use yet_another_mysql_operat.Manager.Tls.{contents, append, grown_capacity}
use yet_another_mysql_operat.Manager.{
  ManagerOps, Setup, ManagerOptions, main, configure_servers, watch_certificate, launch,
  manager_options, run_manager, add_runnables, serve, add_watcher, start_manager,
}
use yet_another_mysql_operat.Manager.Serving.{
  Serves, filter_of, made_with, webhook_watcher_of, metrics_watcher_of, main-Serves,
}
use yet_another_mysql_operat.Manager.Order.{phase_of, plan, IsEndOf, main_follows_plan}

test_join : join_path (codes "/tmp/certs/") (codes "tls.crt") ≡ codes "/tmp/certs/tls.crt"
unfolding codes join_path clean text_eq split join
test_join = refl

test_up : join_path (codes "a/../b/.") (codes "../tls.key") ≡ codes "tls.key"
unfolding codes join_path clean text_eq split join
test_up = refl

-- Each watcher has a number of its own; the manager starts as given.
abbrev manager : Result (Unit {0}) → ManagerOps ℕ ℕ ℕ ℕ
manager end = record {
  new_watcher = λ cert key w. (ok w, suc w);
  get_config_or_die = λ w. (ok 0, w);
  new_manager = λ config options w. (ok 0, w);
  build_controller = λ mgr spec w. (ok tt, w);
  add = λ mgr watcher w. (ok tt, w);
  build_webhook = λ mgr spec w. (ok tt, w);
  add_healthz_check = λ mgr name w. (ok tt, w);
  add_readyz_check = λ mgr name w. (ok tt, w);
  start = λ mgr heap w. (end, w);
}

abbrev start : Setup ℕ ℕ
start = record { world = 3; heap = record { next = 0; cells = λ a i. none }; steps = [] }

abbrev both_certs : Flags
both_certs = record default_flags { webhook_cert_path = codes "/w"; metrics_cert_path = codes "/m" }

abbrev lost_lease : Result (Unit {0})
lost_lease = err (plain (codes "leader election lost"))

test_watchers :
    (webhook_watcher_of (main (manager (ok tt)) both_certs start).1.steps ≡ some 3)
    × (metrics_watcher_of (main (manager (ok tt)) both_certs start).1.steps ≡ some 4)
unfolding main configure_servers watch_certificate launch run_manager add_runnables serve
    add_watcher start_manager append grown_capacity default_flags codes
test_watchers = (refl, refl)

-- The arguments of the chart under helm/yamo.
abbrev chart_flags : Flags
chart_flags = record default_flags {
  enable_leader_election = true;
  webhook_cert_path = codes "/tmp/k8s-webhook-server/serving-certs";
}

abbrev no_others : OtherFlags
no_others = record { is_bool = λ name. none; complaint = λ name v. none }

test_chart :
    parse
      (λ t. t)
      no_others
      (codes "--leader-elect"
        ∷ codes "--health-probe-bind-address=:8081"
        ∷ codes "--webhook-cert-path=/tmp/k8s-webhook-server/serving-certs"
        ∷ [])
      default_flags
    ≡ parsed chart_flags
unfolding parse read_argument read_name split_value find_flag set_flag flag_name codes text_eq
    parse_bool default_flags
test_chart = refl

test_unknown :
    parse (λ t. t) no_others (codes "-leader" ∷ []) default_flags
    ≡ exit_error (codes "flag provided but not defined: -leader")
unfolding parse read_argument read_name split_value find_flag set_flag flag_name codes text_eq
    default_flags
test_unknown = refl

test_help : parse (λ t. t) no_others (codes "-h" ∷ []) default_flags ≡ exit_help
unfolding parse read_argument read_name split_value find_flag set_flag flag_name codes text_eq
    default_flags
test_help = refl

parse-command_line_example :
    (parse (λ t. t) no_others (command_line both_certs) chart_flags ≡ parsed both_certs)
    × (parse (λ t. t) no_others (command_words both_certs) chart_flags ≡ parsed both_certs)
parse-command_line_example = parse-command_line (λ t. t) no_others both_certs chart_flags

abbrev all_opts : ManagerOptions
all_opts = manager_options (manager lost_lease) both_certs (record {
  webhook_watcher = some 3;
  metrics_watcher = some 4;
  webhook_tls_opts = record { array = 1; length = 2; capacity = 2 };
  metrics = record {
    bind_address = codes "0";
    secure_serving = true;
    tls_opts = record { array = 2; length = 2; capacity = 2 };
    filter_provider = filter_of true;
  };
})

-- The manager was made, and lost its lease later.
made : made_with (main (manager lost_lease) both_certs start).1.steps ≡ some all_opts
unfolding main configure_servers watch_certificate launch run_manager add_runnables serve
    add_watcher start_manager append grown_capacity default_flags codes manager_options
made = refl

main-Serves_example :
    let t = (main (manager lost_lease) both_certs start).1 in
    Serves false (webhook_watcher_of t.steps) (contents t.heap all_opts.webhook_tls_opts)
    × Serves false (metrics_watcher_of t.steps) (contents t.heap all_opts.metrics.tls_opts)
    × (all_opts.metrics.filter_provider ≡ filter_of true)
unfolding default_flags
main-Serves_example = main-Serves (manager lost_lease) both_certs start all_opts refl made

main_follows_plan_example :
    let (r, t) = main (manager (ok tt)) both_certs start in
    IsEndOf (map phase_of t.steps) (plan both_certs)
    × (r ≡ ok tt → map phase_of t.steps ≡ plan both_certs)
main_follows_plan_example = main_follows_plan (manager (ok tt)) both_certs start refl
