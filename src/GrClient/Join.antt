-- ===== src/GrClient/Join.antt =====
-- `joinGroup` of gr_client.go, in each state that a server may tell.
use yet_another_mysql_operat.Prelude.{
  ◌≡◌, ◌≢◌, ◌↔◌, ◌⊎◌, inl, inr, refl, ap, ◌∙◌, ℕ, true, false, ◌||◌, [], ◌∷◌, Option, none, some,
  arith, Bool-cases,
}
use yet_another_mysql_operat.Prelude.Result.{
  Error, not_found, conflict, no_rows, mysql_error, plain, wrap, Result, ok, err, Result-cases,
}
use yet_another_mysql_operat.Prelude.Text.{Text, codes, text_eq, text_eq_iff, text_eq_sound}
use yet_another_mysql_operat.GrClient.{join_group, joined, local_state_desc, is_still_joining}
use yet_another_mysql_operat.GrClient.Query
use yet_another_mysql_operat.GrClient.Sql.{SqlOps, Session, executed, queried, query_row, exec}

-- The number of the MySQL error that an error wraps, if it does.
abbrev pub number_of : Error → Option ℕ
number_of (mysql_error n _) = some n
number_of (wrap _ e) = number_of e
number_of (not_found _) = none
number_of (conflict _) = none
number_of no_rows = none
number_of (plain _) = none

still_joining_number : (e : Error) → (is_still_joining e ≡ true) ↔ (number_of e ≡ some 3663)
unfolding is_still_joining
still_joining_number (mysql_error n t) = ground arith
still_joining_number (wrap t e) = still_joining_number e
still_joining_number (not_found t) = ground arith
still_joining_number (conflict t) = ground arith
still_joining_number no_rows = ground arith
still_joining_number (plain t) = ground arith

-- The server has no state to tell, or one that is neither ONLINE nor RECOVERING.
abbrev pub IsOut : Result Text → Type 0
IsOut r =
    (r ≡ err no_rows)
    ⊎ ((state : Text) × (r ≡ ok state) × (state ≢ codes "ONLINE") × (state ≢ codes "RECOVERING"))

-- No error, or the MySQL error 3663
abbrev pub IsTaken : Result (Unit {0}) → Type 0
IsTaken r = (r ≡ ok tt) ⊎ ((e : Error) × (r ≡ err e) × (number_of e ≡ some 3663))

text_ne : (a b : Text) → a ≢ b → text_eq a b ≡ false
text_ne a b h = elim (Bool-cases (text_eq a b)) [
  | inl e ↦ absurd (h (text_eq_sound a b e))
  | inr e ↦ e
]

state_in :
    (state : Text)
    → (text_eq state (codes "ONLINE") || text_eq state (codes "RECOVERING")) ≡ true
    → (state ≡ codes "ONLINE") ⊎ (state ≡ codes "RECOVERING")
state_in state k = elim (Bool-cases (text_eq state (codes "ONLINE"))) [
  | inl y ↦ inl (text_eq_sound state (codes "ONLINE") y)
  | inr n ↦ inr (text_eq_sound state (codes "RECOVERING") (ground (arith, k, n)))
]

state_out :
    (state : Text)
    → (text_eq state (codes "ONLINE") || text_eq state (codes "RECOVERING")) ≡ false
    → (state ≢ codes "ONLINE") × (state ≢ codes "RECOVERING")
state_out state k = (
  λ e. ground (arith, k, (text_eq_iff state (codes "ONLINE")).1 e),
  λ e. ground (arith, k, (text_eq_iff state (codes "RECOVERING")).1 e),
)

module _ {Db W : Type 0} (sql : SqlOps Db W) (db : Db) (pw : Text) (s : Session Db W) where
  abbrev pub told : Result Text × W
  told = sql.query_row db Query.local_state [] s.world

  abbrev pub start : Result (Unit {0}) × W
  start = sql.exec db Query.start_group_replication (pw ∷ []) told.1

  abbrev pub Starts : Type 0
  Starts =
      ((join_group sql db pw s).1.sent
        ≡ executed db Query.start_group_replication (pw ∷ [])
          ∷ queried db Query.local_state []
          ∷ s.sent)
      × (((join_group sql db pw s).0 ≡ ok tt) ↔ IsTaken start.0)

  abbrev pub Rests : Type 0
  Rests =
      ((join_group sql db pw s).1.sent ≡ queried db Query.local_state [] ∷ s.sent)
      × (((join_group sql db pw s).0 ≡ ok tt)
          ↔ ((told.0 ≡ ok (codes "ONLINE")) ⊎ (told.0 ≡ ok (codes "RECOVERING"))))

  abbrev asked : Session Db W
  asked = record { world = told.1; sent = queried db Query.local_state [] ∷ s.sent }

  abbrev started : Session Db W
  started = record {
    world = start.1;
    sent = executed db Query.start_group_replication (pw ∷ []) ∷ asked.sent;
  }

  joined-IsTaken :
      (r : Result (Unit {0})) (t : Session Db W) → ((joined sql r t).0 ≡ ok tt) ↔ IsTaken r
  unfolding joined
  joined-IsTaken (ok tt) t = (λ _. inl refl, λ _. refl)
  joined-IsTaken (err e) t = elim (Bool-cases (is_still_joining e)) [
    | inl y ↦ (λ _. inr (e, refl, (still_joining_number e).0 y), λ _. rw y refl)
    | inr n ↦ (
      λ x. ground (arith, x, n),
      λ taken. elim taken [
        | inl same ↦ ground (arith, same)
        | inr (e', same, k) ↦ ground (arith, same, n, (still_joining_number e').1 k)
      ],
    )
  ]

  none_run : told.0 ≡ err no_rows → join_group sql db pw s ≡ joined sql start.0 started
  unfolding join_group local_state_desc query_row exec text_eq codes
  none_run none_found = rw none_found refl

  state_run :
      (state : Text)
      → told.0 ≡ ok state
      → (text_eq state (codes "ONLINE") || text_eq state (codes "RECOVERING")) ≡ false
      → join_group sql db pw s ≡ joined sql start.0 started
  unfolding join_group local_state_desc query_row exec
  state_run state found k = rw (found, k) refl

  out_run : IsOut told.0 → join_group sql db pw s ≡ joined sql start.0 started
  out_run (inl none_found) = none_run none_found
  out_run (inr (state, found, not_online, not_recovering)) = state_run state found (
      rw
        (
          text_ne state (codes "ONLINE") not_online,
          text_ne state (codes "RECOVERING") not_recovering,
        )
        refl)

  in_run :
      (state : Text)
      → told.0 ≡ ok state
      → (text_eq state (codes "ONLINE") || text_eq state (codes "RECOVERING")) ≡ true
      → join_group sql db pw s ≡ (ok tt, asked)
  unfolding join_group local_state_desc query_row
  in_run state found k = rw (found, k) refl

  lookup_fails :
      (e : Error)
      → told.0 ≡ err e
      → e ≢ no_rows
      → join_group sql db pw s ≡ (err (wrap (codes "local state") e), asked)
  unfolding join_group local_state_desc query_row
  lookup_fails (mysql_error n t) h ne = rw h refl
  lookup_fails (wrap t e) h ne = rw h refl
  lookup_fails (not_found t) h ne = rw h refl
  lookup_fails (conflict t) h ne = rw h refl
  lookup_fails no_rows h ne = absurd (ne refl)
  lookup_fails (plain t) h ne = rw h refl

  out-Starts : IsOut told.0 → Starts
  unfolding joined
  out-Starts out = rw (out_run out) (ground arith, joined-IsTaken start.0 started)

  in-Rests :
      (state : Text)
      → told.0 ≡ ok state
      → (text_eq state (codes "ONLINE") || text_eq state (codes "RECOVERING")) ≡ true
      → ((IsOut told.0 → ⊥) × Rests)
  in-Rests state found k =
      let is_in = state_in state k in
      rw (in_run state found k, found)
        (
          λ out. elim out [
            | inl same ↦ ground (arith, same)
            | inr (other, same, not_online, not_recovering) ↦
                let e : other ≡ state = ground (arith, same) in
                elim is_in [ inl y ↦ not_online (e ∙ y) | inr y ↦ not_recovering (e ∙ y) ]
          ],
          (refl, (λ _. elim is_in [ inl y ↦ inl (ap ok y) | inr y ↦ inr (ap ok y) ], λ _. refl)),
        )

  failed-Rests : (e : Error) → told.0 ≡ err e → e ≢ no_rows → ((IsOut told.0 → ⊥) × Rests)
  failed-Rests e h ne =
      rw (lookup_fails e h ne, h)
        (
          λ out. elim out [
            | inl same ↦ ne (ground (arith, same))
            | inr (state, found, _, _) ↦ ground (arith, found)
          ],
          (
            refl,
            (
              λ x. ground (arith, x),
              λ x. elim x [ inl y ↦ ground (arith, y) | inr y ↦ ground (arith, y) ],
            ),
          ),
        )

  no_rows-cases : (e : Error) → (e ≡ no_rows) ⊎ (e ≢ no_rows)
  no_rows-cases (mysql_error n t) = inr (λ h. cc h)
  no_rows-cases (wrap t e) = inr (λ h. cc h)
  no_rows-cases (not_found t) = inr (λ h. cc h)
  no_rows-cases (conflict t) = inr (λ h. cc h)
  no_rows-cases no_rows = inl refl
  no_rows-cases (plain t) = inr (λ h. cc h)

  -- Where the server tells no state, or one that is neither ONLINE nor RECOVERING, the join sends
  -- one START with the password, and succeeds exactly if that had no error or one that wraps the
  -- MySQL error 3663. Otherwise it sends no START, and succeeds exactly if the state is ONLINE or
  -- RECOVERING.
  pub join_starts : (IsOut told.0 × Starts) ⊎ ((IsOut told.0 → ⊥) × Rests)
  join_starts = elim (Result-cases told.0) [
    | inl (state, found) ↦
        elim (Bool-cases (text_eq state (codes "ONLINE") || text_eq state (codes "RECOVERING"))) [
          | inl k ↦ inr (in-Rests state found k)
          | inr k ↦
              let out : IsOut told.0 =
                inr (state, found, (state_out state k).0, (state_out state k).1) in
              inl (out, out-Starts out)
        ]
    | inr (e, h) ↦ elim (no_rows-cases e) [
      | inl same ↦ let out : IsOut told.0 = inl (h ∙ ap err same) in inl (out, out-Starts out)
      | inr ne ↦ inr (failed-Rests e h ne)
    ]
  ]
