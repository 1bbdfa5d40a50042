-- ===== src/Manager/Order.antt =====
-- The order of the steps in cmd/main.go.
use yet_another_mysql_operat.Prelude.{
  ◌≡◌, ◌⊎◌, inl, inr, refl, sym, Bool, true, false, not, Option, none, some, List, [], ◌∷◌, ◌++◌,
  map, arith,
}
use yet_another_mysql_operat.Prelude.Result.{Result, Error, ok, err, Exec, Result-cases, ◌>>=◌}
use yet_another_mysql_operat.Prelude.Text.{Text, codes, is_empty}
use yet_another_mysql_operat.Prelude.Path.{join_path}
use yet_another_mysql_operat.Manager.CommandLine.{Flags}
use yet_another_mysql_operat.Manager.{
  Servers, ManagerOps, or_exit, load_config, launch, manager_options, Setup, Step,
  configure_servers, watch_certificate, run_manager, add_runnables, serve, add_watcher,
  start_manager, main, webhook_watcher_created, metrics_watcher_created, manager_created,
  controller_built, metrics_watcher_added, webhook_watcher_added, webhook_built, healthz_added,
  readyz_added, started,
}

-- What a step is about.
pub data Phase : Type 0 where
  webhook_watcher : Text → Text → Phase
  metrics_watcher : Text → Text → Phase
  manager controller add_metrics_watcher add_webhook_watcher webhook healthz readyz start : Phase

abbrev pub phase_of : {Watcher : Type 0} → Step Watcher → Phase
phase_of (webhook_watcher_created cert key _) = webhook_watcher cert key
phase_of (metrics_watcher_created cert key _) = metrics_watcher cert key
phase_of (manager_created _) = manager
phase_of (controller_built _) = controller
phase_of (metrics_watcher_added _) = add_metrics_watcher
phase_of (webhook_watcher_added _) = add_webhook_watcher
phase_of (webhook_built _) = webhook
phase_of (healthz_added _) = healthz
phase_of (readyz_added _) = readyz
phase_of started = start

abbrev pub given : Text → List Phase → List Phase
given [] ps = []
given (c ∷ path) ps = ps

abbrev pub one_if : Bool → Phase → List Phase
one_if true p = p ∷ []
one_if false p = []

-- The phases once the manager is made, the last one first, behind those before.
abbrev pub later_phases : Bool → Bool → List Phase → List Phase
later_phases on_metrics on_webhook done =
    start
    ∷ readyz
    ∷ healthz
    ∷ webhook
    ∷ (one_if on_webhook add_webhook_watcher
        ++ (one_if on_metrics add_metrics_watcher ++ controller ∷ done))

-- The phases before.
abbrev pub early_phases : Flags → List Phase
early_phases f =
    given f.metrics_cert_path (
      metrics_watcher (join_path f.metrics_cert_path f.metrics_cert_name)
        (join_path f.metrics_cert_path f.metrics_cert_key)
      ∷ [])
    ++ given f.webhook_cert_path (
        webhook_watcher (join_path f.webhook_cert_path f.webhook_cert_name)
          (join_path f.webhook_cert_path f.webhook_cert_key)
        ∷ [])

-- The whole start for these flags, the last phase first.
abbrev pub plan : Flags → List Phase
plan f =
    later_phases (not (is_empty f.metrics_cert_path)) (not (is_empty f.webhook_cert_path))
      (manager ∷ early_phases f)

-- The phases done are those of the start but for its last ones.
abbrev pub IsEndOf : List Phase → List Phase → Type 0
IsEndOf done [] = done ≡ []
IsEndOf done (p ∷ ps) = (done ≡ p ∷ ps) ⊎ IsEndOf done ps

IsEndOf-refl : (ps : List Phase) → IsEndOf ps ps
IsEndOf-refl [] = refl
IsEndOf-refl (p ∷ ps) = inl refl

IsEndOf-append : (done ps qs : List Phase) → IsEndOf done qs → IsEndOf done (ps ++ qs)
IsEndOf-append done [] qs h = h
IsEndOf-append done (p ∷ ps) qs h = inr (IsEndOf-append done ps qs h)

abbrev is_made : {Watcher : Type 0} → Option Watcher → Bool
is_made none = false
is_made (some _) = true

module _ {Watcher Config Mgr W : Type 0} (ops : ManagerOps Watcher Config Mgr W) where
  configure-phases :
      (flags : Flags) (s : Setup Watcher W)
      → s.steps ≡ []
      → let (r, t) = configure_servers ops flags s in
        IsEndOf (map phase_of t.steps) (early_phases flags)
        × ((servers : Servers Watcher)
            → r ≡ ok servers
            → (map phase_of t.steps ≡ early_phases flags)
              × (is_made servers.metrics_watcher ≡ not (is_empty flags.metrics_cert_path))
              × (is_made servers.webhook_watcher ≡ not (is_empty flags.webhook_cert_path)))
  unfolding configure_servers watch_certificate
  configure-phases flags s h = ground (arith, h)

  -- The run ends with phases of `ps`, and with all of them if it succeeds.
  abbrev Runs : List Phase → Result (Unit {0}) × Setup Watcher W → Type 0
  Runs ps x = IsEndOf (map phase_of x.1.steps) ps × (x.0 ≡ ok tt → map phase_of x.1.steps ≡ ps)

  -- An action and the rest of the start.
  bind_rule :
      {A : Type 0} (ps done : List Phase) (m : Setup Watcher W → Result A × Setup Watcher W)
      (next : A → Setup Watcher W → Result (Unit {0}) × Setup Watcher W) (s : Setup Watcher W)
      → IsEndOf done ps
      → ((e : Error) → (m s).0 ≡ err e → map phase_of (m s).1.steps ≡ done)
      → ((a : A) → (m s).0 ≡ ok a → Runs ps (next a (m s).1))
      → Runs ps ((m >>= next) s)
  bind_rule ps done m next s begun fails rest = elim (Result-cases (m s).0) [
    | inl (a, e) ↦ rw e (rest a e)
    | inr (f, e) ↦ rw e (rw (fails f e) begun, cc)
  ]

  -- One step and the rest of the start.
  exit_rule :
      {A : Type 0} (p : Phase) (ps done : List Phase) (step : A → Step Watcher) (place : Text)
      (m : Exec W A) (next : A → Setup Watcher W → Result (Unit {0}) × Setup Watcher W)
      (s : Setup Watcher W)
      → ((a : A) → phase_of (step a) ≡ p)
      → map phase_of s.steps ≡ done
      → IsEndOf done ps
      → ((a : A) (t : Setup Watcher W) → map phase_of t.steps ≡ p ∷ done → Runs ps (next a t))
      → Runs ps ((or_exit ops step place m >>= next) s)
  exit_rule p ps done step place m next s same at begun rest = elim (Result-cases (m s.world).0) [
    | inl (a, e) ↦ rw e (rest a _ (rw (same a, at) refl))
    | inr (f, e) ↦ rw e (rw at begun, cc)
  ]

  runnables-phases :
      (servers : Servers Watcher) (mgr : Mgr) (done : List Phase) (s : Setup Watcher W)
      → map phase_of s.steps ≡ done
      → Runs
          (one_if (is_made servers.webhook_watcher) add_webhook_watcher
            ++ (one_if (is_made servers.metrics_watcher) add_metrics_watcher ++ controller ∷ done))
          (add_runnables ops servers mgr s)
  unfolding add_runnables add_watcher
  runnables-phases servers mgr done s h = ground (arith, h, IsEndOf-refl done)

  serve-phases :
      (mgr : Mgr) (done : List Phase) (s : Setup Watcher W)
      → map phase_of s.steps ≡ done
      → Runs (start ∷ readyz ∷ healthz ∷ webhook ∷ done) (serve ops mgr s)
  unfolding serve start_manager
  serve-phases mgr done s h = ground (arith, h, IsEndOf-refl done)

  run-phases :
      (servers : Servers Watcher) (mgr : Mgr) (done : List Phase) (s : Setup Watcher W)
      → map phase_of s.steps ≡ done
      → Runs
          (later_phases (is_made servers.metrics_watcher) (is_made servers.webhook_watcher) done)
          (run_manager ops servers mgr s)
  unfolding run_manager
  run-phases servers mgr done s h =
      let (begun, all) = runnables-phases servers mgr done s h in
      bind_rule
        (later_phases (is_made servers.metrics_watcher) (is_made servers.webhook_watcher) done)
        (map phase_of (add_runnables ops servers mgr s).1.steps) (add_runnables ops servers mgr)
        (λ _. serve ops mgr) s (inr (inr (inr (inr begun)))) (λ _ _. refl)
        (λ u e. serve-phases mgr _ _ (all e))

  launch-phases :
      (flags : Flags) (servers : Servers Watcher) (done : List Phase) (s : Setup Watcher W)
      → map phase_of s.steps ≡ done
      → Runs
          (later_phases
            (is_made servers.metrics_watcher)
            (is_made servers.webhook_watcher)
            (manager ∷ done))
          (launch ops flags servers s)
  unfolding launch
  launch-phases flags servers done s h =
      let whole =
        later_phases (is_made servers.metrics_watcher) (is_made servers.webhook_watcher)
          (manager ∷ done) in
      let w = one_if (is_made servers.webhook_watcher) add_webhook_watcher in
      let m = one_if (is_made servers.metrics_watcher) add_metrics_watcher in
      let begun : IsEndOf done whole =
        IsEndOf-append done (start ∷ readyz ∷ healthz ∷ webhook ∷ [])
          (w ++ (m ++ controller ∷ manager ∷ done))
          (IsEndOf-append done w (m ++ controller ∷ manager ∷ done) (
            IsEndOf-append done m (controller ∷ manager ∷ done) (inr (inr (IsEndOf-refl done))))) in
      bind_rule whole done (load_config ops) _ s begun (λ _ _. h)
        (λ config _.
          exit_rule manager whole done (λ _. manager_created (manager_options ops flags servers))
            (codes "unable to start manager")
            (ops.new_manager config (manager_options ops flags servers)) (run_manager ops servers)
            (load_config ops s).1 (λ _. refl) h begun
            (λ mgr t at. run-phases servers mgr (manager ∷ done) t at))

  -- The program takes the phases of the start in their order, whatever fails: those that it has
  -- done are the first ones of the plan. If it succeeds it has done all of them. Certificates are
  -- watched exactly for the servers with a directory for them.
  pub main_follows_plan :
      (flags : Flags) (s : Setup Watcher W)
      → s.steps ≡ []
      → let (r, t) = main ops flags s in
        IsEndOf (map phase_of t.steps) (plan flags)
        × (r ≡ ok tt → map phase_of t.steps ≡ plan flags)
  unfolding main
  main_follows_plan flags s h =
      let first = configure-phases flags s h in
      let on_metrics = not (is_empty flags.metrics_cert_path) in
      let on_webhook = not (is_empty flags.webhook_cert_path) in
      let begun =
        IsEndOf-append (map phase_of (configure_servers ops flags s).1.steps)
          (start ∷ readyz ∷ healthz ∷ webhook ∷ []) _
          (IsEndOf-append _ (one_if on_webhook add_webhook_watcher) _
            (IsEndOf-append _ (one_if on_metrics add_metrics_watcher) _ (inr (inr first.0)))) in
      bind_rule (plan flags) (map phase_of (configure_servers ops flags s).1.steps)
        (configure_servers ops flags) (launch ops flags) s begun (λ _ _. refl)
        (λ servers e.
          let (done, m, w) = first.1 servers e in
          rw (sym m, sym w) (launch-phases flags servers (early_phases flags) _ done))
