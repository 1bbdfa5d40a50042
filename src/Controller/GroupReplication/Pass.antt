-- ===== src/Controller/GroupReplication/Pass.antt =====
-- The handles of a whole group replication pass.
use yet_another_mysql_operat.Prelude.{◌+◌, ◌≡◌, inl, inr, arith}
use yet_another_mysql_operat.Prelude.Result.{Error, ok, err, Result-cases, Exec, bind_keeps}
use yet_another_mysql_operat.Controller.Names.{ResourceNames}
use yet_another_mysql_operat.Controller.Env.{Env, State}
use yet_another_mysql_operat.Controller.Retry.{IsRetry}
use yet_another_mysql_operat.Controller.Trace.{compares_opened, compares_closed}
use yet_another_mysql_operat.Controller.Collect.{Collected, collect_group_info}
use yet_another_mysql_operat.Controller.Collect.Laws.{collect-Looks, collect_handle}
use yet_another_mysql_operat.Controller.ReconcilePods.Clients.{Balanced}
use yet_another_mysql_operat.Controller.GroupReplication.{
  Loaded, load_secrets_and_pods, with_collected, collect_and_act, reconcile_group_replication,
}
use yet_another_mysql_operat.Controller.GroupReplication.Handles.{load-Tidy, with_collected_handles}

module _ {Db W : Type 0} (env : Env Db W) where
  -- The collection, as the pass calls it.
  abbrev pub collection : ResourceNames → Loaded → State Db W → Exec (State Db W) (Collected Db)
  collection names loaded s =
      collect_group_info env names loaded.root_pass s.mysql.status.group_replication_bootstrapped
        s.mysql.status.restart_candidate loaded.pods

  act_ok :
      (names : ResourceNames) (loaded : Loaded) (s : State Db W) (c : Collected Db)
      → (collection names loaded s s).0 ≡ ok c
      → collect_and_act env names loaded s
        ≡ with_collected env names loaded s.mysql.status.group_replication_bootstrapped
            s.mysql.status.restart_candidate c
            (collection names loaded s s).1
  unfolding collect_and_act
  act_ok names loaded s c e = ground arith

  act_err :
      (names : ResourceNames) (loaded : Loaded) (s : State Db W) (e : Error)
      → (collection names loaded s s).0 ≡ err e
      → collect_and_act env names loaded s ≡ (err e, (collection names loaded s s).1)
  unfolding collect_and_act
  act_err names loaded s e h = ground arith

  -- Where the collection fails, the pass fails with its error, has opened the comparison handles
  -- that the collection opened, and has closed none.
  pub failed_collection_leaks :
      (names : ResourceNames) (loaded : Loaded) (s : State Db W) (e : Error)
      → (collection names loaded s s).0 ≡ err e
      → ((collect_and_act env names loaded s).0 ≡ err e)
        × (compares_opened (collect_and_act env names loaded s).1.trace
            ≡ compares_opened (collection names loaded s s).1.trace)
        × (compares_closed (collect_and_act env names loaded s).1.trace ≡ compares_closed s.trace)
  failed_collection_leaks names loaded s e h =
      let looks =
        collect-Looks env names loaded.root_pass s.mysql.status.group_replication_bootstrapped
          s.mysql.status.restart_candidate loaded.pods s in
      ground (arith, act_err names loaded s e h, looks.none_closed)

  module _ (law : IsRetry env) where
    act-Balanced :
        (names : ResourceNames) (loaded : Loaded) (s : State Db W)
        → Balanced s (collect_and_act env names loaded s).1
    act-Balanced names loaded s =
        let b = s.mysql.status.group_replication_bootstrapped in
        let r = s.mysql.status.restart_candidate in
        let looks = collect-Looks env names loaded.root_pass b r loaded.pods s in
        elim (Result-cases (collection names loaded s s).0) [
          | inl (c, e) ↦ rw (act_ok names loaded s c e) (
              omega (
                arith,
                looks.clients,
                with_collected_handles env law names loaded b r c (collection names loaded s s).1,
              ))
          | inr (e, h) ↦ rw (act_err names loaded s e h) looks.clients
        ]

    -- Where RetryOnConflict keeps its law, a pass closes as many clients as it opens, on success
    -- and on every error path.
    pub pass-Balanced :
        (names : ResourceNames) (s : State Db W)
        → Balanced s (reconcile_group_replication env names s).1
    unfolding reconcile_group_replication
    pass-Balanced names s =
        let first = load-Tidy env law names s in
        let t = (load_secrets_and_pods env names s).1 in
        bind_keeps (Balanced s) (load_secrets_and_pods env names) (collect_and_act env names) s
          first.clients (λ loaded _. omega (arith, first.clients, act-Balanced names loaded t))

    act_compares :
        (names : ResourceNames) (loaded : Loaded) (s : State Db W) (c : Collected Db)
        → (collection names loaded s s).0 ≡ ok c
        → compares_opened (collect_and_act env names loaded s).1.trace + compares_closed s.trace
          ≡ compares_closed (collect_and_act env names loaded s).1.trace + compares_opened s.trace
    act_compares names loaded s c e =
        let b = s.mysql.status.group_replication_bootstrapped in
        let r = s.mysql.status.restart_candidate in
        let looks = collect-Looks env names loaded.root_pass b r loaded.pods s in
        let handle = collect_handle env names loaded.root_pass b r loaded.pods s c e in
        rw (act_ok names loaded s c e) (
          omega (
            arith,
            looks.none_closed,
            handle.1,
            with_collected_handles env law names loaded b r c (collection names loaded s s).1,
          ))

    -- Where RetryOnConflict keeps its law, a pass that succeeds has closed as many comparison
    -- handles as it opened.
    pub pass_closes_compares :
        (names : ResourceNames) (s : State Db W)
        → (reconcile_group_replication env names s).0 ≡ ok tt
        → let t = (reconcile_group_replication env names s).1 in
          compares_opened t.trace + compares_closed s.trace
          ≡ compares_closed t.trace + compares_opened s.trace
    unfolding reconcile_group_replication
    pass_closes_compares names s h =
        let first = load-Tidy env law names s in
        let t = (load_secrets_and_pods env names s).1 in
        elim (Result-cases (load_secrets_and_pods env names s).0) [
          | inl (loaded, e) ↦ elim (Result-cases (collection names loaded t t).0) [
            | inl (c, f) ↦
                ground (arith, first.opened, first.closed, act_compares names loaded t c f)
            | inr (f, g) ↦ ground (arith, act_err names loaded t f g)
          ]
          | inr (e, f) ↦ ground arith
        ]
