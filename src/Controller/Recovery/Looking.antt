-- ===== src/Controller/Recovery/Looking.antt =====
-- `loadSecretsAndPods` and `collectGroupInfo` on a group that is down.
use yet_another_mysql_operat.Prelude.{
  ◌≡◌, inl, inr, refl, ap, ◌∙◌, Bool, true, false, ◌&&◌, ◌++◌, List, [], ◌∷◌, some, none, arith,
  Bool-cases,
}
use yet_another_mysql_operat.Prelude.Result.{ok, Result-cases, Exec}
use yet_another_mysql_operat.Prelude.Text.{Text, is_empty}
use yet_another_mysql_operat.Prelude.Assoc
use yet_another_mysql_operat.Util.{root_user_env, replication_user_env}
use yet_another_mysql_operat.GrClient.Candidate.{GtidInfo}
use yet_another_mysql_operat.Controller.Objects.{Pod, Secret}
use yet_another_mysql_operat.Controller.Names.{ResourceNames}
use yet_another_mysql_operat.Controller.Pods.{is_contactable}
use yet_another_mysql_operat.Controller.Env.{Env, State, release, guarded}
use yet_another_mysql_operat.Controller.Trace.{bootstraps, status_writes}
use yet_another_mysql_operat.Controller.Collect.{Collected, examine, collect_pod, collect_pods}
use yet_another_mysql_operat.Controller.GroupReplication.{Loaded, is_nil, load_secrets_and_pods}
use yet_another_mysql_operat.Controller.Recovery.{Answers, is_ok, first_contactable}

-- The API server has the secrets and lists the pods, the servers tell their GTID sets and can be
-- compared, and where there is something to choose from there is a choice.
pub record Supplies {Db W : Type 0} (env : Env Db W) (up : W → Bool) (names : ResourceNames)
    (loaded : Loaded) : Type 0 where
  pub secret_of : Text → Secret
  pub secrets :
      (namespace name : Text) (w : W)
      → (env.kube.get_secret namespace name w).0 ≡ ok (secret_of name)
  pub secrets_up :
      (namespace name : Text) (w : W) → up (env.kube.get_secret namespace name w).1 ≡ up w
  pub root_password :
      Assoc.get root_user_env (secret_of names.secret).contents ≡ some loaded.root_pass
  pub replication_password :
      Assoc.get replication_user_env (secret_of names.repl_sec).contents ≡ some loaded.repl_pass
  pub lists :
      (namespace app : Text) (w : W) → (env.kube.list_pods namespace app w).0 ≡ ok loaded.pods
  pub lists_up : (namespace app : Text) (w : W) → up (env.kube.list_pods namespace app w).1 ≡ up w
  pub sets : (db : Db) (w : W) → is_ok (env.gr.gtid_sets db w).0 ≡ true
  pub sets_up : (db : Db) (w : W) → up (env.gr.gtid_sets db w).1 ≡ up w
  pub compares : (dsn : Text) (w : W) → is_ok (env.gr.open_compare dsn w).0 ≡ true
  pub compares_up : (dsn : Text) (w : W) → up (env.gr.open_compare dsn w).1 ≡ up w
  pub ends_up : (db : Db) (w : W) → up (env.gr.close_compare db w).1 ≡ up w
  pub picks :
      (db : Db) (infos : List GtidInfo) (w : W)
      → is_nil infos ≡ false
      → is_ok (env.gr.pick_restart_candidate db infos w).0 ≡ true
  pub picks_up :
      (db : Db) (infos : List GtidInfo) (w : W)
      → up (env.gr.pick_restart_candidate db infos w).1 ≡ up w

-- What a pass leaves as it was while it only looks
pub record Looked {Db W : Type 0} (up : W → Bool) (s t : State Db W) : Type 0 where
  pub same_object : t.mysql ≡ s.mysql
  pub same_bootstraps : bootstraps t.trace ≡ bootstraps s.trace
  pub same_writes : status_writes t.trace ≡ status_writes s.trace
  pub still : up t.world ≡ up s.world

pub Looked-trans :
    {Db W : Type 0} {up : W → Bool} {s t u : State Db W}
    → Looked up s t
    → Looked up t u
    → Looked up s u
Looked-trans a b = record {
  same_object = b.same_object ∙ a.same_object;
  same_bootstraps = b.same_bootstraps ∙ a.same_bootstraps;
  same_writes = b.same_writes ∙ a.same_writes;
  still = b.still ∙ a.still;
}

abbrev has_handle : {Db : Type 0} → Collected Db → Bool
has_handle c = elim c.cmp_db [ none ↦ false | some _ ↦ true ]

is_nil-last : (infos : List GtidInfo) (info : GtidInfo) → is_nil (infos ++ info ∷ []) ≡ false
is_nil-last [] info = refl
is_nil-last (x ∷ infos) info = refl

module _ {Db W : Type 0} (env : Env Db W) (up : W → Bool) (names : ResourceNames) (loaded : Loaded)
    (supplies : Supplies env up names loaded) where
  pub load_looks :
      (s : State Db W)
      → let (r, t) = load_secrets_and_pods env names s in (r ≡ ok loaded) × Looked up s t
  unfolding load_secrets_and_pods
  load_looks s = grind (
    arith, supplies.secrets, supplies.secrets_up, supplies.root_password,
    supplies.replication_password, supplies.lists, supplies.lists_up,
  )

  module _ (answers : Answers env up) (bootstrapped : Bool) (candidate : Text) where
    abbrev look : Pod → Collected Db → Exec (State Db W) (Collected Db)
    look = collect_pod env names loaded.root_pass bootstrapped candidate

    abbrev look_all : List Pod → Collected Db → Exec (State Db W) (Collected Db)
    look_all = collect_pods env names loaded.root_pass bootstrapped candidate

    abbrev waits : Bool
    waits = bootstrapped && is_empty candidate

    look_down :
        (pod : Pod) (acc : Collected Db) (s : State Db W)
        → up s.world ≡ false
        → (is_ok (look pod acc s).0 ≡ true) × (up (look pod acc s).1.world ≡ false)
    unfolding collect_pod examine guarded release
    look_down pod acc s h = grind (
      arith, h, answers.connects, answers.connects_up, answers.closes_up, answers.self_up,
      answers.self_down, supplies.sets, supplies.sets_up, supplies.compares, supplies.compares_up,
    )

    look_finds :
        (pod : Pod) (acc acc' : Collected Db) (s : State Db W)
        → up s.world ≡ false
        → (look pod acc s).0 ≡ ok acc'
        → (acc'.any_online ≡ acc.any_online)
          × (waits ≡ false → acc' ≡ acc)
          × (is_nil acc.infos ≡ false → is_nil acc'.infos ≡ false)
          × (is_contactable pod ≡ true → waits ≡ true → is_nil acc'.infos ≡ false)
    unfolding collect_pod examine guarded release
    look_finds pod acc acc' s h e =
        grind (arith, h, e, is_nil-last acc.infos, answers.connects_up, answers.self_down)

    -- What the loop over the pods hands over in a group that is down
    pub record Seen (pods : List Pod) (acc : Collected Db) (s : State Db W) : Type 0 where
      pub found : Collected Db
      pub succeeds : (look_all pods acc s).0 ≡ ok found
      pub down : up (look_all pods acc s).1.world ≡ false
      pub online : found.any_online ≡ acc.any_online
      pub idle : waits ≡ false → found ≡ acc
      pub kept : is_nil acc.infos ≡ false → is_nil found.infos ≡ false
      pub some_info :
          (first : Pod)
          → first_contactable pods ≡ some first
          → waits ≡ true
          → is_nil found.infos ≡ false

    look_on :
        (pod : Pod) (pods : List Pod) (acc acc' : Collected Db) (s : State Db W)
        → (look pod acc s).0 ≡ ok acc'
        → look_all (pod ∷ pods) acc s ≡ look_all pods acc' (look pod acc s).1
    unfolding collect_pods
    look_on pod pods acc acc' s e = rw e refl

    pub all-Seen :
        (pods : List Pod) (acc : Collected Db) (s : State Db W)
        → up s.world ≡ false
        → Seen pods acc s
    all-Seen [] acc s h =
        unfold collect_pods in
        record {
          found = acc;
          succeeds = refl;
          down = h;
          online = refl;
          idle = λ _. refl;
          kept = λ k. k;
          some_info = λ first at w. cc at;
        }
    all-Seen (pod ∷ pods) acc s h =
        let (fine, down) = look_down pod acc s h in
        elim (Result-cases (look pod acc s).0) [
          | inl (mid, e) ↦
              let (online, idle, kept, here) = look_finds pod acc mid s h e in
              let rest = all-Seen pods mid (look pod acc s).1 down in
              let same = look_on pod pods acc mid s e in
              record {
                found = rest.found;
                succeeds = ap (λ x. x.0) same ∙ rest.succeeds;
                down = ap (λ x. up x.1.world) same ∙ rest.down;
                online = rest.online ∙ online;
                idle = λ w. rest.idle w ∙ idle w;
                kept = λ k. rest.kept (kept k);
                some_info = λ first at w. elim (Bool-cases (is_contactable pod)) [
                  | inl c ↦ rest.kept (here c w)
                  | inr c ↦ rest.some_info first (ground (arith, at, c)) w
                ];
              }
          | inr (f, e) ↦ ground (arith, e, fine)
        ]
