-- ===== src/Manager.antt =====
-- cmd/main.go with `SetupWithManager` and `SetupWebhookWithManager`: the program that starts the
-- manager. Certificate watchers and the manager of controller-runtime are parameters. A failure logs
-- and exits with 1: here it is an error with the logged text in front.
pub mod CommandLine
pub mod Tls
pub mod Serving
pub mod Order
use yet_another_mysql_operat.Prelude.{
  Bool, true, false, not, List, [], ◌∷◌, Option, none, some, if◌then◌else◌,
}
use yet_another_mysql_operat.Prelude.Result.{Result, ok, err, Exec, pure, wrap_error, ◌>>=◌, ◌>>◌}
use yet_another_mysql_operat.Prelude.Text.{Text, codes, is_empty}
use yet_another_mysql_operat.Prelude.Path.{join_path}
use yet_another_mysql_operat.Manager.CommandLine.{Flags}
use yet_another_mysql_operat.Manager.Tls.{
  TlsOption, disable_http2, get_certificate, Slice, Heap, nil, append,
}

-- `filters.WithAuthenticationAndAuthorization`, the one filter that the program names.
pub data Filter : Type 0 where
  with_authentication_and_authorization : Filter

pub record MetricsOptions : Type 0 where
  pub bind_address : Text
  pub secure_serving : Bool
  pub tls_opts : Slice
  pub filter_provider : Option Filter

-- `ctrl.Options`, with the options of the webhook server.
pub record ManagerOptions : Type 0 where
  pub metrics : MetricsOptions
  pub webhook_tls_opts : Slice
  pub health_probe_bind_address : Text
  pub leader_election : Bool
  pub leader_election_id : Text

-- The kinds of object that the builder of the controller names.
pub data Kind : Type 0 where
  mysql_kind secret_kind config_map_kind service_kind stateful_set_kind : Kind

pub record ControllerSpec : Type 0 where
  pub for : Kind
  pub name : Text
  pub owns : List Kind

pub record WebhookSpec : Type 0 where
  pub for : Kind
  pub defaulter : Kind

-- The steps of the start that succeeded, the newest first, a watcher with its two files; the last one, `mgr.Start`, is listed when
-- it is called.
pub data Step (Watcher : Type 0) : Type 0 where
  webhook_watcher_created : Text → Text → Watcher → Step Watcher
  metrics_watcher_created : Text → Text → Watcher → Step Watcher
  manager_created : ManagerOptions → Step Watcher
  controller_built : ControllerSpec → Step Watcher
  metrics_watcher_added : Watcher → Step Watcher
  webhook_watcher_added : Watcher → Step Watcher
  webhook_built : WebhookSpec → Step Watcher
  healthz_added : Text → Step Watcher
  readyz_added : Text → Step Watcher
  started : Step Watcher

-- `certwatcher.New`, `ctrl.GetConfigOrDie`, and the methods of the manager and its builders. The
-- manager reads the TLS options when it starts.
pub record ManagerOps (Watcher Config Manager W : Type 0) : Type 0 where
  pub new_watcher : Text → Text → Exec W Watcher
  pub get_config_or_die : Exec W Config
  pub new_manager : Config → ManagerOptions → Exec W Manager
  pub build_controller : Manager → ControllerSpec → Exec W (Unit {0})
  pub add : Manager → Watcher → Exec W (Unit {0})
  pub build_webhook : Manager → WebhookSpec → Exec W (Unit {0})
  pub add_healthz_check : Manager → Text → Exec W (Unit {0})
  pub add_readyz_check : Manager → Text → Exec W (Unit {0})
  pub start : Manager → Heap Watcher → Exec W (Unit {0})

-- The world, the arrays behind the slices of TLS options, and the steps that succeeded.
pub record Setup (Watcher W : Type 0) : Type 0 where
  pub world : W
  pub heap : Heap Watcher
  pub steps : List (Step Watcher)

-- `SetupWithManager` of the controller
unfoldable pub controller_spec : ControllerSpec
controller_spec = record {
  for = mysql_kind;
  name = codes "mysql";
  owns = secret_kind ∷ config_map_kind ∷ service_kind ∷ stateful_set_kind ∷ [];
}

-- `SetupWebhookWithManager`
unfoldable pub webhook_spec : WebhookSpec
webhook_spec = record { for = mysql_kind; defaulter = mysql_kind }

-- The watchers that were made, and the options of the two servers.
pub record Servers (Watcher : Type 0) : Type 0 where
  pub webhook_watcher : Option Watcher
  pub metrics_watcher : Option Watcher
  pub webhook_tls_opts : Slice
  pub metrics : MetricsOptions

abbrev pub note_ok :
    {Watcher A : Type 0} → (A → Step Watcher) → Result A → List (Step Watcher) → List (Step Watcher)
note_ok step (ok a) steps = step a ∷ steps
note_ok step (err _) steps = steps

module _ {Watcher Config Manager W : Type 0} (ops : ManagerOps Watcher Config Manager W) where
  abbrev pub Starts : Type 0 → Type 0
  Starts = Exec (Setup Watcher W)

  -- `if err != nil { setupLog.Error(err, place); os.Exit(1) }`
  abbrev pub or_exit : {A : Type 0} → (A → Step Watcher) → Text → Exec W A → Starts A
  or_exit step place m s =
      let (r, w) = m s.world in
      (wrap_error place r, record s { world = w; steps = note_ok step r s.steps })

  abbrev pub append_option : TlsOption Watcher → Slice → Starts Slice
  append_option o slice s =
      let (slice', heap) = append o slice s.heap in (ok slice', record s { heap = heap })

  -- A certificate watcher where a directory is given, and an option for it behind the others.
  unfoldable pub watch_certificate :
      (Text → Text → Watcher → Step Watcher)
      → Text
      → Text
      → Text
      → Text
      → Slice
      → Starts (Option Watcher × Slice)
  unfolding append
  watch_certificate step place path name key slice =
      if not (is_empty path)
      then (do
        let cert_file = join_path path name
        let key_file = join_path path key
        watcher ← or_exit (step cert_file key_file) place (ops.new_watcher cert_file key_file)
        slice' ← append_option (get_certificate watcher) slice
        pure (some watcher, slice'))
      else pure (none, slice)

  -- `main`, up to the manager
  unfoldable pub configure_servers : Flags → Starts (Servers Watcher)
  unfolding watch_certificate
  configure_servers flags = do
    tls_opts ← if not flags.enable_http2 then append_option disable_http2 nil else pure nil
    webhook ←
        watch_certificate webhook_watcher_created
          (codes "Failed to initialize webhook certificate watcher") flags.webhook_cert_path
          flags.webhook_cert_name flags.webhook_cert_key tls_opts
    metrics ←
        watch_certificate metrics_watcher_created
          (codes "to initialize metrics certificate watcher") flags.metrics_cert_path
          flags.metrics_cert_name flags.metrics_cert_key tls_opts
    pure (record {
      webhook_watcher = webhook.0;
      metrics_watcher = metrics.0;
      webhook_tls_opts = webhook.1;
      metrics = record {
        bind_address = flags.metrics_addr;
        secure_serving = flags.secure_metrics;
        tls_opts = metrics.1;
        filter_provider =
            if flags.secure_metrics then some with_authentication_and_authorization else none;
      };
    })

  unfoldable pub manager_options : Flags → Servers Watcher → ManagerOptions
  manager_options flags servers = record {
    metrics = servers.metrics;
    webhook_tls_opts = servers.webhook_tls_opts;
    health_probe_bind_address = flags.probe_addr;
    leader_election = flags.enable_leader_election;
    leader_election_id = codes "8512ab79.elnino.tech";
  }

  -- `if watcher != nil { if err := mgr.Add(watcher); err != nil { … } }`
  unfoldable pub add_watcher :
      (Watcher → Step Watcher) → Text → Manager → Option Watcher → Starts (Unit {0})
  add_watcher step place mgr none = pure tt
  add_watcher step place mgr (some watcher) =
      or_exit (λ _. step watcher) place (ops.add mgr watcher)

  -- `mgr.Start(…)` serves with the TLS options as the arrays then hold them.
  unfoldable pub start_manager : Manager → Starts (Unit {0})
  start_manager mgr s =
      let (r, w) = ops.start mgr s.heap s.world in
      (
        wrap_error (codes "problem running manager") r,
        record s { world = w; steps = started ∷ s.steps },
      )

  -- `main`: the controller and the watchers of the manager
  unfoldable pub add_runnables : Servers Watcher → Manager → Starts (Unit {0})
  unfolding add_watcher controller_spec
  add_runnables servers mgr = do
    or_exit (λ _. controller_built controller_spec) (codes "unable to create controller")
        (ops.build_controller mgr controller_spec)
    add_watcher metrics_watcher_added (codes "unable to add metrics certificate watcher to manager")
        mgr servers.metrics_watcher
    add_watcher webhook_watcher_added (codes "unable to add webhook certificate watcher to manager")
        mgr servers.webhook_watcher

  -- `main`: the webhook, the checks, and the start
  unfoldable pub serve : Manager → Starts (Unit {0})
  unfolding start_manager webhook_spec
  serve mgr = do
    or_exit (λ _. webhook_built webhook_spec) (codes "unable to create webhook")
        (ops.build_webhook mgr webhook_spec)
    or_exit (λ _. healthz_added (codes "healthz")) (codes "unable to set up health check")
        (ops.add_healthz_check mgr (codes "healthz"))
    or_exit (λ _. readyz_added (codes "readyz")) (codes "unable to set up ready check")
        (ops.add_readyz_check mgr (codes "readyz"))
    start_manager mgr

  unfoldable pub run_manager : Servers Watcher → Manager → Starts (Unit {0})
  run_manager servers mgr = do add_runnables servers mgr; serve mgr

  abbrev pub load_config : Starts Config
  load_config s = let (r, w) = ops.get_config_or_die s.world in (r, record s { world = w })

  -- `main`, from the configuration of the cluster on
  unfoldable pub launch : Flags → Servers Watcher → Starts (Unit {0})
  unfolding manager_options
  launch flags servers = do
    config ← load_config
    let options = manager_options flags servers
    mgr ←
        or_exit (λ _. manager_created options) (codes "unable to start manager")
          (ops.new_manager config options)
    run_manager servers mgr

  -- `main`, behind the parsing of its flags
  unfoldable pub main : Flags → Starts (Unit {0})
  main flags = do servers ← configure_servers flags; launch flags servers
