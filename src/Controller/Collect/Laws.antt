-- ===== src/Controller/Collect/Laws.antt =====
-- `collectGroupInfo` only looks: it changes no server and no status, closes its clients, and opens
-- the handle for comparisons with the first pod that it examines.
use yet_another_mysql_operat.Prelude.{
  inl, inr, ℕ, ◌+◌, ◌≡◌, refl, ◌∙◌, Bool, true, false, ◌||◌, not, List, [], ◌∷◌, Option, none, some,
  arith,
}
use yet_another_mysql_operat.Prelude.Result.{Error, ok, err, Result-cases, bind_keeps, Exec}
use yet_another_mysql_operat.Prelude.Text.{Text}
use yet_another_mysql_operat.Prelude.Assoc.{is_some}
use yet_another_mysql_operat.GrClient.Candidate.{GtidInfo}
use yet_another_mysql_operat.Controller.Objects.{Pod}
use yet_another_mysql_operat.Controller.Names.{ResourceNames}
use yet_another_mysql_operat.Controller.Env.{Env, State, release, guarded}
use yet_another_mysql_operat.Controller.Trace.{
  clients_opened, clients_closed, compares_opened, compares_closed, bootstraps, changes,
  status_writes,
}
use yet_another_mysql_operat.Controller.Collect.{
  Collected, nothing_collected, examine, collect_pod, collect_pods, collect_group_info,
}

-- What a look leaves as it was, with the clients closed again.
pub record Looks {Db W : Type 0} (s s' : State Db W) : Type 0 where
  pub same_object : s'.mysql ≡ s.mysql
  pub no_changes : changes s'.trace ≡ changes s.trace
  pub no_bootstraps : bootstraps s'.trace ≡ bootstraps s.trace
  pub no_writes : status_writes s'.trace ≡ status_writes s.trace
  pub none_closed : compares_closed s'.trace ≡ compares_closed s.trace
  pub clients :
      clients_opened s'.trace + clients_closed s.trace
      ≡ clients_closed s'.trace + clients_opened s.trace

Looks-trans : {Db W : Type 0} {s t u : State Db W} → Looks s t → Looks t u → Looks s u
Looks-trans a b = record {
  same_object = b.same_object ∙ a.same_object;
  no_changes = b.no_changes ∙ a.no_changes;
  no_bootstraps = b.no_bootstraps ∙ a.no_bootstraps;
  no_writes = b.no_writes ∙ a.no_writes;
  none_closed = b.none_closed ∙ a.none_closed;
  clients = omega (arith, a.clients, b.clients);
}

-- A handle counts one.
abbrev pub held : {Db : Type 0} → Option Db → ℕ
held none = 0
held (some db) = 1

abbrev pub has_info : List GtidInfo → Bool
has_info [] = false
has_info (x ∷ xs) = true

-- Where there is an info there is a handle.
abbrev pub HasHandle : {Db : Type 0} → Collected Db → Type 0
HasHandle c = (not (has_info c.infos) || is_some c.cmp_db) ≡ true

module _ {Db W : Type 0} (env : Env Db W) (names : ResourceNames) (root_pass : Text)
    (bootstrapped : Bool) (candidate : Text) where
  abbrev visit : Pod → Collected Db → Exec (State Db W) (Collected Db)
  visit = collect_pod env names root_pass bootstrapped candidate

  abbrev loop : List Pod → Collected Db → Exec (State Db W) (Collected Db)
  loop = collect_pods env names root_pass bootstrapped candidate

  visit-Looks : (pod : Pod) (acc : Collected Db) (s : State Db W) → Looks s (visit pod acc s).1
  unfolding collect_pod examine guarded release
  visit-Looks pod acc s = ground arith

  visit_handle :
      (pod : Pod) (acc acc' : Collected Db) (s : State Db W)
      → (visit pod acc s).0 ≡ ok acc'
      → (HasHandle acc → HasHandle acc')
        × (compares_opened (visit pod acc s).1.trace + held acc.cmp_db
            ≡ compares_opened s.trace + held acc'.cmp_db)
  unfolding collect_pod examine guarded release
  visit_handle pod acc acc' s e = ground arith

  loop_step :
      (pod : Pod) (pods : List Pod) (acc acc' : Collected Db) (s : State Db W)
      → (visit pod acc s).0 ≡ ok acc'
      → loop (pod ∷ pods) acc s ≡ loop pods acc' (visit pod acc s).1
  unfolding collect_pods
  loop_step pod pods acc acc' s e = ground arith

  loop_fails :
      (pod : Pod) (pods : List Pod) (acc : Collected Db) (s : State Db W) (e : Error)
      → (visit pod acc s).0 ≡ err e
      → (loop (pod ∷ pods) acc s).0 ≡ err e
  unfolding collect_pods
  loop_fails pod pods acc s e h = ground arith

  loop-Looks : (pods : List Pod) (acc : Collected Db) (s : State Db W) → Looks s (loop pods acc s).1
  unfolding collect_pods
  loop-Looks [] acc s = ground arith
  loop-Looks (pod ∷ pods) acc s =
      bind_keeps (Looks s) (visit pod acc) (λ acc'. loop pods acc') s (visit-Looks pod acc s)
        (λ acc' _. Looks-trans (visit-Looks pod acc s) (loop-Looks pods acc' (visit pod acc s).1))

  loop_handle :
      (pods : List Pod) (acc acc' : Collected Db) (s : State Db W)
      → (loop pods acc s).0 ≡ ok acc'
      → (HasHandle acc → HasHandle acc')
        × (compares_opened (loop pods acc s).1.trace + held acc.cmp_db
            ≡ compares_opened s.trace + held acc'.cmp_db)
  loop_handle [] acc acc' s e = unfold collect_pods in ground arith
  loop_handle (pod ∷ pods) acc acc' s e = elim (Result-cases (visit pod acc s).0) [
    | inl (mid, h) ↦
        let same = loop_step pod pods acc mid s h in
        let first = visit_handle pod acc mid s h in
        let others = loop_handle pods mid acc' (visit pod acc s).1 (rw same at e) in
        (λ x. others.0 (first.0 x), rw same (omega (arith, first.1, others.1)))
    | inr (f, h) ↦ cc (loop_fails pod pods acc s f h)
  ]

  -- Whether it succeeds or fails, the collection changes no database server and no status, and every
  -- client that it opens is closed.
  pub collect-Looks :
      (pods : List Pod) (s : State Db W)
      → Looks s (collect_group_info env names root_pass bootstrapped candidate pods s).1
  unfolding collect_group_info
  collect-Looks pods s = loop-Looks pods nothing_collected s

  -- A collection that succeeds hands over the handle that it opened, if any, and has one wherever
  -- there is something to compare.
  pub collect_handle :
      (pods : List Pod) (s : State Db W) (c : Collected Db)
      → (collect_group_info env names root_pass bootstrapped candidate pods s).0 ≡ ok c
      → HasHandle c
        × (compares_opened
              (collect_group_info env names root_pass bootstrapped candidate pods s).1.trace
            ≡ compares_opened s.trace + held c.cmp_db)
  unfolding collect_group_info
  collect_handle pods s c e =
      let h = loop_handle pods nothing_collected c s e in (h.0 refl, omega (arith, h.1))
