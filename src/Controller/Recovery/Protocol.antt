-- ===== src/Controller/Recovery/Protocol.antt =====
-- The restart of a group over two passes: the first records a candidate, the next one bootstraps it.
use yet_another_mysql_operat.Prelude.{
  ◌≡◌, ◌≢◌, inl, inr, List, refl, sym, ap, ap₂, ◌∙◌, Bool, not, ◌||◌, true, false, [], ◌∷◌, Option,
  none, some, map, arith,
}
use yet_another_mysql_operat.Prelude.Result.{Result, ok, lift, ◌>>◌, Result-cases}
use yet_another_mysql_operat.Prelude.Text.{Text, is_empty, text_eq_refl}
use yet_another_mysql_operat.Prelude.Assoc.{is_some}
use yet_another_mysql_operat.Prelude.Sort.Laws.{NoRepeat}
use yet_another_mysql_operat.Api.{MySql}
use yet_another_mysql_operat.GrClient.Candidate.{GtidInfo}
use yet_another_mysql_operat.Controller.Objects.{Pod}
use yet_another_mysql_operat.Controller.Names.{ResourceNames}
use yet_another_mysql_operat.Controller.Env.{Env, State, save_status}
use yet_another_mysql_operat.Controller.Retry.{IsRetry}
use yet_another_mysql_operat.Controller.Trace.{bootstraps, last_written}
use yet_another_mysql_operat.Controller.Collect.{Collected}
use yet_another_mysql_operat.Controller.Collect.Laws.{HasHandle, has_info}
use yet_another_mysql_operat.Controller.ReconcilePods.{join, choose_action}
use yet_another_mysql_operat.Controller.ReconcilePods.Bootstraps.{name_of}
use yet_another_mysql_operat.Controller.ReconcilePods.Status.{save_status_keeps_mysql}
use yet_another_mysql_operat.Controller.GroupReplication.{
  Loaded, is_nil, pick_with, save_candidate, record_candidate, act_on, close_compare,
  with_collected, reconcile_group_replication,
}
use yet_another_mysql_operat.Controller.GroupReplication.Decisions.{candidate_is_recorded}
use yet_another_mysql_operat.Controller.Recovery.{Answers, Apart, is_ok, first_contactable, opening}
use yet_another_mysql_operat.Controller.Recovery.Pods.{save_up}
use yet_another_mysql_operat.Controller.Recovery.Looking.{Supplies, Looked}
use yet_another_mysql_operat.Controller.Recovery.Passes.{
  waits_for_candidate, awaited_bootstrapped, awaited_candidate, begun, Recovered, pass_recovers,
}

pub is_empty_no : (t : Text) → t ≢ [] → is_empty t ≡ false
is_empty_no [] h = absurd (h refl)
is_empty_no (c ∷ t) h = refl

-- Once the group has been bootstrapped, the restart candidate is bootstrapped.
opens_candidate :
    (candidate : Text) (pod : Pod) (force : Bool)
    → candidate ≢ []
    → pod.name ≡ candidate
    → opening candidate pod true force ≢ join
unfolding choose_action
opens_candidate candidate pod force h n =
    rw (n, text_eq_refl candidate, is_empty_no candidate h) (λ e. cc e)

module _ {Db W : Type 0} (env : Env Db W) (law : IsRetry env) (up : W → Bool)
    (answers : Answers env up) (apart : Apart env up) (names : ResourceNames) (loaded : Loaded)
    (supplies : Supplies env up names loaded) where
  -- `PickRestartCandidate` has chosen it, of something.
  abbrev pub IsPicked : Text → Type 0
  IsPicked candidate =
      (db : Db) × (infos : List GtidInfo) × (w : W) × (is_nil infos ≡ false)
      × ((env.gr.pick_restart_candidate db infos w).0 ≡ ok candidate)

  -- The candidate that was chosen is recorded, in memory and in the last attempt to write the status;
  -- the rest is as it was.
  pub record Records (s t : State Db W) : Type 0 where
    pub chosen : IsPicked t.mysql.status.restart_candidate
    pub bootstrapped :
        t.mysql.status.group_replication_bootstrapped
        ≡ s.mysql.status.group_replication_bootstrapped
    pub same_spec : t.mysql.spec ≡ s.mysql.spec
    pub same_bootstraps : bootstraps t.trace ≡ bootstraps s.trace
    pub still : up t.world ≡ up s.world
    pub written : last_written t.trace ≡ some t.mysql.status

  there :
      (infos : List GtidInfo) (o : Option Db)
      → (not (has_info infos) || is_some o) ≡ true
      → is_nil infos ≡ false
      → is_some o ≡ true
  there [] o h n = ground (arith, n)
  there (i ∷ infos) o h n = h

  pick_some :
      (o : Option Db) (infos : List GtidInfo) (s : State Db W)
      → is_some o ≡ true
      → is_nil infos ≡ false
      → let (r, t) = pick_with env o infos s in
        (is_ok r ≡ true)
        × ((choice : Text) → r ≡ ok choice → IsPicked choice)
        × (t.mysql ≡ s.mysql)
        × (up t.world ≡ up s.world)
  unfolding pick_with
  pick_some none infos s h n = ground (arith, h)
  pick_some (some db) infos s h n = (
    supplies.picks db infos s.world n,
    λ choice e. (db, infos, s.world, n, e),
    refl,
    supplies.picks_up db infos s.world,
  )

  picks :
      (c : Collected Db) (s : State Db W)
      → HasHandle c
      → is_nil c.infos ≡ false
      → let (r, t) = pick_with env c.cmp_db c.infos s in
        (is_ok r ≡ true)
        × ((choice : Text) → r ≡ ok choice → IsPicked choice)
        × (t.mysql ≡ s.mysql)
        × (up t.world ≡ up s.world)
  picks c s h n = pick_some c.cmp_db c.infos s (there c.infos c.cmp_db h n) n

  -- The object that the candidate is recorded in
  abbrev with_choice : Text → MySql → MySql
  with_choice choice m = record m { status = record m.status { restart_candidate = choice } }

  save_facts :
      (choice : Text) (s : State Db W)
      → let (r, t) = save_candidate env choice s in
        (r ≡ ok tt) × (t.mysql ≡ with_choice choice s.mysql) × (up t.world ≡ up s.world)
  unfolding save_candidate
  save_facts choice s =
      let set : State Db W = record s { mysql = with_choice choice s.mysql } in
      let namespace = s.mysql.namespace in
      let name = s.mysql.name in
      (
        unfold save_status in refl,
        save_status_keeps_mysql env law namespace name set,
        save_up env law up answers apart namespace name set,
      )

  record_facts :
      (c : Collected Db) (choice : Text) (s : State Db W)
      → HasHandle c
      → is_nil c.infos ≡ false
      → (pick_with env c.cmp_db c.infos s).0 ≡ ok choice
      → let (r, t) = record_candidate env c s in
        (r ≡ ok tt) × (t.mysql ≡ with_choice choice s.mysql) × (up t.world ≡ up s.world)
  unfolding record_candidate
  record_facts c choice s h n picked =
      let (_, _, same, still) = picks c s h n in
      let (fine, saved, kept) = save_facts choice (pick_with env c.cmp_db c.infos s).1 in
      rw picked (fine, saved ∙ ap (with_choice choice) same, kept ∙ still)

  acts_on_candidate :
      (c : Collected Db) (s : State Db W)
      → c.any_online ≡ false
      → is_nil c.infos ≡ false
      → act_on env names loaded true [] c s ≡ record_candidate env c s
  unfolding act_on
  acts_on_candidate c s offline n = rw (offline, n) refl

  closes :
      (o : Option Db) (r : Result (Unit {0})) (s : State Db W)
      → let (r', t) = (close_compare env o >> lift r) s in
        (r' ≡ r)
        × (t.mysql ≡ s.mysql)
        × (bootstraps t.trace ≡ bootstraps s.trace)
        × (last_written t.trace ≡ last_written s.trace)
        × (up t.world ≡ up s.world)
  unfolding close_compare
  closes none r s = (refl, refl, refl, refl, refl)
  closes (some db) r s = (refl, refl, refl, refl, supplies.ends_up db s.world)

  -- The branch of a pass that records a candidate, with its deferred close
  Records-behind :
      (c : Collected Db) (choice : Text) (s : State Db W)
      → c.any_online ≡ false
      → HasHandle c
      → is_nil c.infos ≡ false
      → (pick_with env c.cmp_db c.infos s).0 ≡ ok choice
      → let (r, t) = with_collected env names loaded true [] c s in (r ≡ ok tt) × Records s t
  unfolding with_collected
  Records-behind c choice s offline h n picked =
      let (fine, saved, kept) = record_facts c choice s h n picked in
      let (_, is_picked, _, _) = picks c s h n in
      let act = acts_on_candidate c s offline n in
      let (quiet, chosen, written) =
        candidate_is_recorded env law apart.reads names loaded c s choice offline
          (ground (arith, n)) picked in
      let x = act_on env names loaded true [] c s in
      let (result, mysql, few, last, still) = closes c.cmp_db x.0 x.1 in
      let whole : x.1.mysql ≡ with_choice choice s.mysql = ap (λ y. y.1.mysql) act ∙ saved in
      (
        result ∙ (ap (λ y. y.0) act ∙ fine),
        record {
          chosen =
              rw (ap (λ m. m.status.restart_candidate) mysql ∙ chosen) (is_picked choice picked);
          bootstrapped = ap (λ m. m.status.group_replication_bootstrapped) (mysql ∙ whole);
          same_spec = ap (λ m. m.spec) (mysql ∙ whole);
          same_bootstraps = few ∙ quiet.1;
          still = still ∙ (ap (λ y. up y.1.world) act ∙ kept);
          written = last ∙ (written ∙ ap (λ m. some m.status) (sym mysql));
        },
      )

  Records-collected :
      (c : Collected Db) (s : State Db W)
      → c.any_online ≡ false
      → HasHandle c
      → is_nil c.infos ≡ false
      → let (r, t) = with_collected env names loaded true [] c s in (r ≡ ok tt) × Records s t
  Records-collected c s offline h n = elim (Result-cases (pick_with env c.cmp_db c.infos s).0) [
    | inl (choice, e) ↦ Records-behind c choice s offline h n e
    | inr (f, e) ↦ ground (arith, e, (picks c s h n).0)
  ]

  Records-moved : (s t u : State Db W) → Looked up s t → Records t u → Records s u
  Records-moved s t u l r = record {
    chosen = r.chosen;
    bootstrapped = r.bootstrapped ∙ ap (λ m. m.status.group_replication_bootstrapped) l.same_object;
    same_spec = r.same_spec ∙ ap (λ m. m.spec) l.same_object;
    same_bootstraps = r.same_bootstraps ∙ l.same_bootstraps;
    still = r.still ∙ l.still;
    written = r.written;
  }

  module _ (first : Pod) (at : first_contactable loaded.pods ≡ some first) where
    -- Where the group is down and a candidate is awaited, the pass succeeds and records the one that
    -- was chosen.
    pub pass-Records :
        (s : State Db W)
        → up s.world ≡ false
        → waits_for_candidate s ≡ true
        → let (r, t) = reconcile_group_replication env names s in (r ≡ ok tt) × Records s t
    pass-Records s down w =
        let b = begun env law up answers apart names loaded supplies s down in
        let (fine, records) =
          Records-collected b.collected b.after b.offline b.handle (b.some_info first at w) in
        let whole : reconcile_group_replication env names s
            ≡ with_collected env names loaded true [] b.collected b.after =
          b.runs
          ∙ ap₂ (λ x y. with_collected env names loaded x y b.collected b.after)
              (awaited_bootstrapped s w) (awaited_candidate s w) in
        rw whole (fine, Records-moved s b.after _ b.looked records)

    -- The state of the next pass: the object is read again, with the status that was written.
    abbrev pub with_object : MySql → State Db W → State Db W
    with_object m s = record s { mysql = m }

    -- A group that was bootstrapped and is down, without a restart candidate, is up again after two
    -- passes, if the candidate of the first pass is the first pod that can be reached. The first
    -- pass succeeds, and its last attempt to write the status has a candidate that
    -- PickRestartCandidate returned. The next pass, which reads an object with that status,
    -- succeeds, brings the group up with one bootstrap, takes the candidate back and attempts to
    -- write this last. RetryOnConflict keeps its law, the API server answers, listed pods have
    -- different names, that pod's is not empty, and the servers answer, can be compared, are not
    -- online while the group is down, and join a group that is up.
    pub two_passes_recover :
        (s : State Db W)
        → up s.world ≡ false
        → waits_for_candidate s ≡ true
        → NoRepeat (map name_of loaded.pods)
        → (m : MySql)
        → let (r, t) = reconcile_group_replication env names s in
          let u = with_object m t in
          first.name ≡ t.mysql.status.restart_candidate
          → first.name ≢ []
          → m.status ≡ t.mysql.status
          → (r ≡ ok tt)
            × IsPicked t.mysql.status.restart_candidate
            × (last_written t.trace ≡ some t.mysql.status)
            × Recovered env law up answers apart names loaded supplies first at u
                (reconcile_group_replication env names u)
    two_passes_recover s down w distinct m named non_empty same =
        let (fine, records) = pass-Records s down w in
        let u = with_object m (reconcile_group_replication env names s).1 in
        let candidate : m.status.restart_candidate ≡ first.name =
          ap (λ x. x.restart_candidate) same ∙ sym named in
        let bootstrapped : m.status.group_replication_bootstrapped ≡ true =
          ap (λ x. x.group_replication_bootstrapped) same
          ∙ (records.bootstrapped ∙ awaited_bootstrapped s w) in
        (
          fine,
          records.chosen,
          records.written,
          pass_recovers env law up answers apart names loaded supplies first at u
              (records.still ∙ down)
              (rw (bootstrapped, candidate, is_empty_no first.name non_empty) refl) distinct
              (inr bootstrapped)
              (rw (bootstrapped, candidate)
                (opens_candidate first.name first m.spec.group_replication.force_bootstrap non_empty
                  refl)),
        )
