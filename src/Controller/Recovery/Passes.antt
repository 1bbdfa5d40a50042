-- ===== src/Controller/Recovery/Passes.antt =====
-- Whole passes of `reconcileGroupReplication` over a group that is down.
use yet_another_mysql_operat.Prelude.{
  ◌≡◌, ◌≢◌, ◌⊎◌, ◌+◌, refl, sym, ap, ◌∙◌, Bool, true, false, ◌&&◌, [], ◌∷◌, map, some, arith,
}
use yet_another_mysql_operat.Prelude.Result.{Result, ok}
use yet_another_mysql_operat.Prelude.Text.{Text, is_empty}
use yet_another_mysql_operat.Prelude.Sort.Laws.{NoRepeat}
use yet_another_mysql_operat.Controller.Objects.{Pod}
use yet_another_mysql_operat.Controller.Names.{ResourceNames}
use yet_another_mysql_operat.Controller.Env.{Env, State}
use yet_another_mysql_operat.Controller.Retry.{IsRetry}
use yet_another_mysql_operat.Controller.Trace.{bootstraps, last_written, status_writes}
use yet_another_mysql_operat.Controller.Collect.{
  Collected, nothing_collected, collect_group_info, collect_pods,
}
use yet_another_mysql_operat.Controller.Collect.Laws.{collect-Looks, collect_handle, HasHandle}
use yet_another_mysql_operat.Controller.ReconcilePods.{join, reconcile_pods}
use yet_another_mysql_operat.Controller.ReconcilePods.Bootstraps.{name_of}
use yet_another_mysql_operat.Controller.GroupReplication.{
  Loaded, load_secrets_and_pods, is_nil, act_on, close_compare, with_collected, collect_and_act,
  reconcile_group_replication,
}
use yet_another_mysql_operat.Controller.Recovery.{
  Answers, Refuses, Apart, is_ok, first_contactable, opening_in,
}
use yet_another_mysql_operat.Controller.Recovery.Loop.{IsSettled}
use yet_another_mysql_operat.Controller.Recovery.Pods.{pods_open, pods_blocked}
use yet_another_mysql_operat.Controller.Recovery.Looking.{
  Supplies, Looked, Looked-trans, load_looks, all-Seen,
}

-- The pass waits for a restart candidate: the group was bootstrapped, and none is recorded.
abbrev pub waits_for_candidate : {Db W : Type 0} → State Db W → Bool
waits_for_candidate s =
    s.mysql.status.group_replication_bootstrapped && is_empty s.mysql.status.restart_candidate

module _ {Db W : Type 0} (s : State Db W) where
  pub awaited_bootstrapped :
      waits_for_candidate s ≡ true → s.mysql.status.group_replication_bootstrapped ≡ true
  awaited_bootstrapped w = ground (arith, w)

  pub awaited_candidate : waits_for_candidate s ≡ true → s.mysql.status.restart_candidate ≡ []
  awaited_candidate w = ground (arith, w)

module _ {Db W : Type 0} (env : Env Db W) (law : IsRetry env) (up : W → Bool)
    (answers : Answers env up) (apart : Apart env up) (names : ResourceNames) (loaded : Loaded)
    (supplies : Supplies env up names loaded) where
  -- A pass that goes on with what it found at the pods
  pub record Begun (s : State Db W) (x : Result (Unit {0}) × State Db W) : Type 0 where
    pub collected : Collected Db
    pub after : State Db W
    pub runs :
        x
        ≡ with_collected env names loaded s.mysql.status.group_replication_bootstrapped
            s.mysql.status.restart_candidate collected after
    pub looked : Looked up s after
    pub offline : collected.any_online ≡ false
    pub idle : waits_for_candidate s ≡ false → collected ≡ nothing_collected
    pub handle : HasHandle collected
    pub some_info :
        (first : Pod)
        → first_contactable loaded.pods ≡ some first
        → waits_for_candidate s ≡ true
        → is_nil collected.infos ≡ false

  Begun-behind :
      (s : State Db W) → up s.world ≡ false → Begun s (collect_and_act env names loaded s)
  unfolding collect_and_act collect_group_info
  Begun-behind s down =
      let b = s.mysql.status.group_replication_bootstrapped in
      let r = s.mysql.status.restart_candidate in
      let seen =
        all-Seen env up names loaded supplies answers b r loaded.pods nothing_collected s down in
      let looks = collect-Looks env names loaded.root_pass b r loaded.pods s in
      record {
        collected = seen.found;
        after = (collect_pods env names loaded.root_pass b r loaded.pods nothing_collected s).1;
        runs = rw seen.succeeds refl;
        looked = record {
          same_object = looks.same_object;
          same_bootstraps = looks.no_bootstraps;
          same_writes = looks.no_writes;
          still = seen.down ∙ sym down;
        };
        offline = seen.online;
        idle = seen.idle;
        handle =
            (collect_handle env names loaded.root_pass b r loaded.pods s seen.found
              seen.succeeds).0;
        some_info = seen.some_info;
      }

  Begun-moved :
      (s t : State Db W) (x : Result (Unit {0}) × State Db W)
      → Looked up s t
      → Begun t x
      → Begun s x
  Begun-moved s t x first b = record {
    collected = b.collected;
    after = b.after;
    runs = rw (← first.same_object) b.runs;
    looked = Looked-trans first b.looked;
    offline = b.offline;
    idle = rw (← first.same_object) b.idle;
    handle = b.handle;
    some_info = rw (← first.same_object) b.some_info;
  }

  pub begun :
      (s : State Db W) → up s.world ≡ false → Begun s (reconcile_group_replication env names s)
  unfolding reconcile_group_replication
  begun s down =
      let (loads, first_look) = load_looks env up names loaded supplies s in
      let t = (load_secrets_and_pods env names s).1 in
      rw loads (Begun-moved s t _ first_look (Begun-behind t (first_look.still ∙ down)))

  -- Nothing was collected: the pass is the one over the pods.
  acts_on_pods :
      (b : Bool) (r : Text) (s : State Db W)
      → with_collected env names loaded b r nothing_collected s
        ≡ reconcile_pods env loaded.repl_pass names loaded.root_pass r loaded.pods b s
  unfolding with_collected act_on close_compare
  acts_on_pods true [] s = refl
  acts_on_pods true (c ∷ r) s = refl
  acts_on_pods false r s = refl

  -- A pass that does not wait for a candidate is the one over the pods, from a state like its own.
  idle_pass :
      (s : State Db W)
      → up s.world ≡ false
      → waits_for_candidate s ≡ false
      → (t : State Db W) × Looked up s t
        × (reconcile_group_replication env names s
            ≡ reconcile_pods env loaded.repl_pass names loaded.root_pass
                t.mysql.status.restart_candidate loaded.pods
                t.mysql.status.group_replication_bootstrapped t)
  idle_pass s down idle =
      let b = begun s down in
      (b.after, b.looked, rw (b.runs, b.idle idle, b.looked.same_object) (acts_on_pods _ _ b.after))

  module _ (first : Pod) (at : first_contactable loaded.pods ≡ some first) where
    -- The group is up, and this is recorded in memory and in the last attempt to write the status.
    abbrev pub Recovered : State Db W → Result (Unit {0}) × State Db W → Type 0
    Recovered s x =
        (x.0 ≡ ok tt)
        × (up x.1.world ≡ true)
        × IsSettled x.1.mysql.status
        × (bootstraps x.1.trace ≡ bootstraps s.trace + 1)
        × (last_written x.1.trace ≡ some x.1.mysql.status)

    -- The pass failed; the group is still down, and object and status are as they were.
    abbrev pub Stuck : State Db W → Result (Unit {0}) × State Db W → Type 0
    Stuck s x =
        (is_ok x.0 ≡ false)
        × (x.1.mysql ≡ s.mysql)
        × (bootstraps x.1.trace ≡ bootstraps s.trace)
        × (up x.1.world ≡ false)
        × (status_writes x.1.trace ≡ status_writes s.trace)

    opens_behind :
        (s t : State Db W)
        → Looked up s t
        → up s.world ≡ false
        → NoRepeat (map name_of loaded.pods)
        → (s.mysql.status.restart_candidate ≡ [])
          ⊎ (s.mysql.status.group_replication_bootstrapped ≡ true)
        → opening_in s.mysql.status.restart_candidate first s ≢ join
        → Recovered s (
            reconcile_pods env loaded.repl_pass names loaded.root_pass
              t.mysql.status.restart_candidate loaded.pods
              t.mysql.status.group_replication_bootstrapped t)
    opens_behind s t l down distinct consistent a =
        let m = l.same_object in
        let (fine, is_up, settled, one, written) =
          pods_open env law up answers apart loaded.repl_pass names loaded.root_pass
            t.mysql.status.restart_candidate first loaded.pods at t (l.still ∙ down) distinct
            (rw m consistent) (rw m a) in
        (fine, is_up, settled, one ∙ ap (λ n. n + 1) l.same_bootstraps, written)

    Stuck-behind :
        Refuses env up
        → (s t : State Db W) → Looked up s t
        → up s.world ≡ false
        → opening_in s.mysql.status.restart_candidate first s ≡ join
        → Stuck s (
            reconcile_pods env loaded.repl_pass names loaded.root_pass
              t.mysql.status.restart_candidate loaded.pods
              t.mysql.status.group_replication_bootstrapped t)
    Stuck-behind refuses s t l down a =
        let m = l.same_object in
        let (fails, kept, none_more, is_down, unsaved) =
          pods_blocked env law up answers apart loaded.repl_pass names loaded.root_pass
            t.mysql.status.restart_candidate first loaded.pods at refuses t (l.still ∙ down)
            (rw m a) in
        (fails, kept ∙ m, none_more ∙ l.same_bootstraps, is_down, unsaved ∙ l.same_writes)

    -- Where the group is down, no candidate is awaited, pods have different names, the status is
    -- consistent, and the first pod that can be reached is one to bootstrap, as the pod of ordinal
    -- 0 of a new group is and the restart candidate of one that was bootstrapped: the pass succeeds
    -- with one bootstrap, the group is up behind it, and is recorded as bootstrapped and without a
    -- candidate, in memory and in the last attempt to write the status. RetryOnConflict keeps its
    -- law, the API server answers, and the servers answer, can be compared, are not online while
    -- the group is down, and join a group that is up.
    pub pass_recovers :
        (s : State Db W)
        → up s.world ≡ false
        → waits_for_candidate s ≡ false
        → NoRepeat (map name_of loaded.pods)
        → (s.mysql.status.restart_candidate ≡ [])
          ⊎ (s.mysql.status.group_replication_bootstrapped ≡ true)
        → opening_in s.mysql.status.restart_candidate first s ≢ join
        → Recovered s (reconcile_group_replication env names s)
    pass_recovers s down idle distinct consistent a =
        let (t, l, run) = idle_pass s down idle in
        rw run (opens_behind s t l down distinct consistent a)

    -- Where instead that first pod is one to join, the pass fails and nothing has changed.
    pub pass-Stuck :
        Refuses env up
        → (s : State Db W) → up s.world ≡ false
        → waits_for_candidate s ≡ false
        → opening_in s.mysql.status.restart_candidate first s ≡ join
        → Stuck s (reconcile_group_replication env names s)
    pass-Stuck refuses s down idle a =
        let (t, l, run) = idle_pass s down idle in rw run (Stuck-behind refuses s t l down a)
