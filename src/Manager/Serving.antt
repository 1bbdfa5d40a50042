-- ===== src/Manager/Serving.antt =====
-- What the two servers of cmd/main.go do with their TLS configuration.
use yet_another_mysql_operat.Prelude.{
  ◌≡◌, ◌≢◌, sym, inl, inr, refl, Bool, true, false, List, [], ◌∷◌, Option, none, some,
  if◌then◌else◌, arith,
}
use yet_another_mysql_operat.Prelude.Result.{Error, ok, err, Result-cases}
use yet_another_mysql_operat.Prelude.Text.{codes}
use yet_another_mysql_operat.Manager.Tls.{
  TlsOption, disable_http2, get_certificate, TlsConfig, contents, append, apply_options,
  grown_capacity,
}
use yet_another_mysql_operat.Manager.CommandLine.{Flags}
use yet_another_mysql_operat.Manager.{
  ManagerOps, ManagerOptions, Filter, Setup, Servers, Step, manager_created,
  webhook_watcher_created, metrics_watcher_created, configure_servers, watch_certificate,
  run_manager, add_runnables, serve, launch, add_watcher, start_manager, main, manager_options,
  with_authentication_and_authorization,
}

abbrev pub or_else : {A : Type 0} → Option A → Option A → Option A
or_else none b = b
or_else (some a) b = some a

-- The options that a server should get: its own certificate, if it has one, behind the other option.
abbrev pub wanted_options : {Watcher : Type 0} → Bool → Option Watcher → List (TlsOption Watcher)
wanted_options true none = []
wanted_options true (some w) = get_certificate w ∷ []
wanted_options false none = disable_http2 ∷ []
wanted_options false (some w) = disable_http2 ∷ get_certificate w ∷ []

-- The options that the manager was made with, and the watchers that were made.
abbrev pub made_with : {Watcher : Type 0} → List (Step Watcher) → Option ManagerOptions
made_with [] = none
made_with (manager_created options ∷ _) = some options
made_with (_ ∷ steps) = made_with steps

abbrev pub webhook_watcher_of : {Watcher : Type 0} → List (Step Watcher) → Option Watcher
webhook_watcher_of [] = none
webhook_watcher_of (webhook_watcher_created _ _ w ∷ _) = some w
webhook_watcher_of (_ ∷ steps) = webhook_watcher_of steps

abbrev pub metrics_watcher_of : {Watcher : Type 0} → List (Step Watcher) → Option Watcher
metrics_watcher_of [] = none
metrics_watcher_of (metrics_watcher_created _ _ w ∷ _) = some w
metrics_watcher_of (_ ∷ steps) = metrics_watcher_of steps

-- The filter of a metrics server that is secure or not
abbrev pub filter_of : Bool → Option Filter
filter_of true = some with_authentication_and_authorization
filter_of false = none

-- A server that starts with the options `os`, a flag for HTTP/2 and a watcher speaks HTTP/1.1 only
-- unless HTTP/2 is enabled, and has the watcher's certificate if there is a watcher.
abbrev pub Serves : {Watcher : Type 0} → Bool → Option Watcher → List (TlsOption Watcher) → Type 0
Serves {Watcher} http2 watcher os =
    (c : TlsConfig Watcher)
    → ((apply_options os c).next_protos ≡ (if http2 then c.next_protos else codes "http/1.1" ∷ []))
      × ((apply_options os c).certificate ≡ or_else watcher c.certificate)

module _ {Watcher Config Mgr W : Type 0} (ops : ManagerOps Watcher Config Mgr W) where
  wanted-configure :
      (flags : Flags) (s : Setup Watcher W) (servers : Servers Watcher)
      → (configure_servers ops flags s).0 ≡ ok servers
      → let t = (configure_servers ops flags s).1 in
        (contents t.heap servers.webhook_tls_opts
          ≡ wanted_options flags.enable_http2 servers.webhook_watcher)
        × (contents t.heap servers.metrics.tls_opts
            ≡ wanted_options flags.enable_http2 servers.metrics_watcher)
  unfolding configure_servers watch_certificate append contents grown_capacity
  wanted-configure flags s servers e = ground (arith, e)

  wanted-Serves :
      (http2 : Bool) (watcher : Option Watcher)
      → Serves http2 watcher (wanted_options http2 watcher)
  unfolding apply_options
  wanted-Serves http2 watcher c = ground arith

  watchers_of :
      (flags : Flags) (s : Setup Watcher W) (servers : Servers Watcher)
      → s.steps ≡ []
      → (configure_servers ops flags s).0 ≡ ok servers
      → let t = (configure_servers ops flags s).1 in
        (webhook_watcher_of t.steps ≡ servers.webhook_watcher)
        × (metrics_watcher_of t.steps ≡ servers.metrics_watcher)
        × (made_with t.steps ≡ none)
  unfolding configure_servers watch_certificate
  watchers_of flags s servers h e = ground (arith, h, e)

  run_keeps :
      (servers : Servers Watcher) (mgr : Mgr) (s : Setup Watcher W)
      → let t = (run_manager ops servers mgr s).1 in
        (t.heap ≡ s.heap)
        × (webhook_watcher_of t.steps ≡ webhook_watcher_of s.steps)
        × (metrics_watcher_of t.steps ≡ metrics_watcher_of s.steps)
        × (made_with t.steps ≡ made_with s.steps)
  unfolding run_manager add_runnables serve add_watcher start_manager
  run_keeps servers mgr s = ground arith

  launch_keeps :
      (flags : Flags) (servers : Servers Watcher) (s : Setup Watcher W)
      → made_with s.steps ≡ none
      → let t = (launch ops flags servers s).1 in
        (t.heap ≡ s.heap)
        × (webhook_watcher_of t.steps ≡ webhook_watcher_of s.steps)
        × (metrics_watcher_of t.steps ≡ metrics_watcher_of s.steps)
        × ((options : ManagerOptions)
            → made_with t.steps ≡ some options
            → options ≡ manager_options ops flags servers)
  unfolding launch
  launch_keeps flags servers s h = grind (arith, h, run_keeps servers)

  servers-filter :
      (flags : Flags) (s : Setup Watcher W) (servers : Servers Watcher)
      → (configure_servers ops flags s).0 ≡ ok servers
      → servers.metrics.filter_provider ≡ filter_of flags.secure_metrics
  unfolding configure_servers
  servers-filter flags s servers e = ground (arith, e)

  main-ok :
      (flags : Flags) (s : Setup Watcher W) (servers : Servers Watcher)
      → (configure_servers ops flags s).0 ≡ ok servers
      → main ops flags s ≡ launch ops flags servers (configure_servers ops flags s).1
  unfolding main
  main-ok flags s servers e = rw e refl

  main-err :
      (flags : Flags) (s : Setup Watcher W) (f : Error)
      → s.steps ≡ []
      → (configure_servers ops flags s).0 ≡ err f
      → (options : ManagerOptions) → made_with (main ops flags s).1.steps ≢ some options
  unfolding main configure_servers watch_certificate
  main-err flags s f h e options = ground (arith, h, e)

  -- Where the manager was made, each of the two servers starts with options that make it speak
  -- HTTP/1.1 only, unless HTTP/2 is enabled, and that give it the certificate of its own watcher,
  -- if it has one, and of no other. A secure metrics server, and no other, filters its requests.
  pub main-Serves :
      (flags : Flags) (s : Setup Watcher W) (options : ManagerOptions)
      → s.steps ≡ []
      → let t = (main ops flags s).1 in
        made_with t.steps ≡ some options
        → Serves flags.enable_http2
            (webhook_watcher_of t.steps)
            (contents t.heap options.webhook_tls_opts)
          × Serves flags.enable_http2
              (metrics_watcher_of t.steps)
              (contents t.heap options.metrics.tls_opts)
          × (options.metrics.filter_provider ≡ filter_of flags.secure_metrics)
  unfolding main manager_options
  main-Serves flags s options h made = elim (Result-cases (configure_servers ops flags s).0) [
    | inl (servers, e) ↦
        let t = (configure_servers ops flags s).1 in
        let (web, met, no_manager) = watchers_of flags s servers h e in
        let (heap, web', met', same) = launch_keeps flags servers t no_manager in
        let wanted = wanted-configure flags s servers e in
        let run = main-ok flags s servers e in
        let options_are = same options (rw (sym run) made) in
        rw
          (
            options_are,
            run,
            heap,
            web',
            met',
            web,
            met,
            wanted.0,
            wanted.1,
            servers-filter flags s servers e,
          )
          (wanted-Serves _ _, wanted-Serves _ _, refl)
    | inr (f, e) ↦ absurd (main-err flags s f h e options made)
  ]
