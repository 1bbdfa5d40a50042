-- ===== src/Controller/SqlClient/Accounts.antt =====
-- The handles behind the methods of `Client`: which methods open one, and which close one.
use yet_another_mysql_operat.Prelude.{
  ◌≡◌, ◌+◌, ℕ, suc, refl, List, [], ◌∷◌, arith, Bool, true, false, if◌then◌else◌,
}
use yet_another_mysql_operat.Prelude.Result.{Result, ok, err, Exec, bind_keeps, annotate}
use yet_another_mysql_operat.Prelude.Text.{Text, codes, contains_byte}
use yet_another_mysql_operat.GrClient.{
  GtidSets, ensure_replication_user, bootstrap_group, join_group, any_online_member, in_group,
  gtid_sets, run_statements, local_state_desc, create_unless_found,
}
use yet_another_mysql_operat.GrClient.Query
use yet_another_mysql_operat.GrClient.Sql.{SqlOps, Session, open_db, close_db, query_row, exec}
use yet_another_mysql_operat.GrClient.Candidate.{
  GtidInfo, superset, covers_all, first_superset, pick_restart_candidate,
}
use yet_another_mysql_operat.GrClient.Connect.{new_client}
use yet_another_mysql_operat.GrClient.Connect.Laws.{opens, closes, wait_for_mysql-Balanced}
use yet_another_mysql_operat.Controller.Env.{GrOps}
use yet_another_mysql_operat.Controller.SqlClient.{connect, client_ops}

-- No handle is opened and none is closed.
abbrev pub IsQuiet : {Db W : Type 0} → Session Db W → Session Db W → Type 0
IsQuiet s t = (opens t.sent ≡ opens s.sent) × (closes t.sent ≡ closes s.sent)

-- One for a handle in the result.
abbrev pub given : {Db : Type 0} → Result Db → ℕ
given (ok db) = 1
given (err e) = 0

-- A handle is left over exactly if the result has it.
abbrev pub Gives : {Db W : Type 0} → Session Db W → Result Db × Session Db W → Type 0
Gives s x = opens x.1.sent + closes s.sent ≡ closes x.1.sent + opens s.sent + given x.0

-- One handle is closed.
abbrev pub ClosesOne : {Db W : Type 0} → Session Db W → Session Db W → Type 0
ClosesOne s t = (opens t.sent ≡ opens s.sent) × (closes t.sent ≡ suc (closes s.sent))

module _ {Db W : Type 0} (sql : SqlOps Db W) where
  abbrev send : Text → Db → Text → Text → Bool → Exec (Session Db W) (Unit {0})
  send place db pw q b = annotate place (if b then exec sql db q (pw ∷ []) else exec sql db q [])

  send-IsQuiet :
      (place : Text) (db : Db) (pw q : Text) (b : Bool) (s t : Session Db W)
      → IsQuiet s t
      → IsQuiet s (send place db pw q b t).1
  unfolding exec
  send-IsQuiet place db pw q true s t h = h
  send-IsQuiet place db pw q false s t h = h

  statements-IsQuiet :
      (place : Text) (db : Db) (pw : Text) (qs : List Text) (s t : Session Db W)
      → IsQuiet s t
      → IsQuiet s (run_statements sql place db pw qs t).1
  unfolding run_statements exec
  statements-IsQuiet place db pw [] s t h = h
  statements-IsQuiet place db pw (q ∷ qs) s t h =
      let first = send-IsQuiet place db pw q (contains_byte b'?' q) s t h in
      bind_keeps (IsQuiet s) (send place db pw q (contains_byte b'?' q))
        (λ _. run_statements sql place db pw qs) t first
        (λ _ _. statements-IsQuiet place db pw qs s _ first)

  create-IsQuiet :
      (db : Db) (pw : Text) (r : Result Text) (s t : Session Db W)
      → IsQuiet s t
      → IsQuiet s (create_unless_found sql db pw r t).1
  unfolding create_unless_found
  create-IsQuiet db pw r s t h =
      ground
        (arith, statements-IsQuiet (codes "ensure replica user") db pw Query.user_statements s t h)

  superset-IsQuiet :
      (db : Db) (a b : GtidSets) (s t : Session Db W)
      → IsQuiet s t
      → IsQuiet s (superset sql db a b t).1
  unfolding superset query_row
  superset-IsQuiet db a b s t h = ground arith

  covers_all-IsQuiet :
      (db : Db) (a : GtidInfo) (bs : List GtidInfo) (s t : Session Db W)
      → IsQuiet s t
      → IsQuiet s (covers_all sql db a bs t).1
  unfolding covers_all
  covers_all-IsQuiet db a [] s t h = h
  covers_all-IsQuiet db a (b ∷ bs) s t h = ground (
    arith,
    covers_all-IsQuiet db a bs s t,
    superset-IsQuiet db a.sets b.sets s t,
    covers_all-IsQuiet db a bs s (superset sql db a.sets b.sets t).1,
  )

  first_superset-IsQuiet :
      (db : Db) (infos rest : List GtidInfo) (s t : Session Db W)
      → IsQuiet s t
      → IsQuiet s (first_superset sql db infos rest t).1
  unfolding first_superset
  first_superset-IsQuiet db infos [] s t h = h
  first_superset-IsQuiet db infos (a ∷ rest) s t h = ground (
    arith,
    covers_all-IsQuiet db a infos s t,
    first_superset-IsQuiet db infos rest s (covers_all sql db a infos t).1,
  )

  pick-IsQuiet :
      (db : Db) (infos : List GtidInfo) (s : Session Db W)
      → IsQuiet s (pick_restart_candidate sql db infos s).1
  unfolding pick_restart_candidate
  pick-IsQuiet db [] s = (refl, refl)
  pick-IsQuiet db (i ∷ is) s = ground (arith, first_superset-IsQuiet db (i ∷ is) (i ∷ is) s s)

  ensure-IsQuiet :
      (db : Db) (pw : Text) (s : Session Db W) → IsQuiet s (ensure_replication_user sql db pw s).1
  unfolding ensure_replication_user query_row
  ensure-IsQuiet db pw s =
      let found = query_row sql db Query.replication_user [] s in
      create-IsQuiet db pw found.0 s found.1 (refl, refl)

  bootstrap-IsQuiet :
      (db : Db) (pw : Text) (s : Session Db W) → IsQuiet s (bootstrap_group sql db pw s).1
  unfolding bootstrap_group
  bootstrap-IsQuiet db pw s = statements-IsQuiet _ db pw _ s s (refl, refl)

  join-IsQuiet : (db : Db) (pw : Text) (s : Session Db W) → IsQuiet s (join_group sql db pw s).1
  unfolding join_group local_state_desc query_row exec
  join-IsQuiet db pw s = ground arith

  any_online-IsQuiet : (db : Db) (s : Session Db W) → IsQuiet s (any_online_member sql db s).1
  unfolding any_online_member query_row
  any_online-IsQuiet db s = ground arith

  in_group-IsQuiet : (db : Db) (s : Session Db W) → IsQuiet s (in_group sql db s).1
  unfolding in_group query_row
  in_group-IsQuiet db s = ground arith

  sets-IsQuiet : (db : Db) (s : Session Db W) → IsQuiet s (gtid_sets sql db s).1
  unfolding gtid_sets query_row
  sets-IsQuiet db s = ground arith

  connect-Gives : (fuel : ℕ) (dsn : Text) (s : Session Db W) → Gives s (connect sql fuel dsn s)
  unfolding connect new_client
  connect-Gives fuel dsn s = ground (arith, wait_for_mysql-Balanced sql fuel dsn 2 s)

  open-Gives : (dsn : Text) (s : Session Db W) → Gives s (open_db sql dsn s)
  unfolding open_db
  open-Gives dsn s = ground arith

  close-ClosesOne : (db : Db) (s : Session Db W) → ClosesOne s (close_db sql db s).1
  unfolding close_db
  close-ClosesOne db s = (refl, refl)

-- What a client interface over a session promises about the handles behind it.
pub record Accounts {Db W : Type 0} (gr : GrOps Db (Session Db W)) : Type 0 where
  pub new_gr_client : (dsn : Text) (s : Session Db W) → Gives s (gr.new_gr_client dsn s)
  pub close : (db : Db) (s : Session Db W) → ClosesOne s (gr.close db s).1
  pub self_online : (db : Db) (s : Session Db W) → IsQuiet s (gr.self_online db s).1
  pub gtid_sets : (db : Db) (s : Session Db W) → IsQuiet s (gr.gtid_sets db s).1
  pub ensure_replication_user :
      (db : Db) (pw : Text) (s : Session Db W) → IsQuiet s (gr.ensure_replication_user db pw s).1
  pub any_online_member : (db : Db) (s : Session Db W) → IsQuiet s (gr.any_online_member db s).1
  pub bootstrap : (db : Db) (pw : Text) (s : Session Db W) → IsQuiet s (gr.bootstrap db pw s).1
  pub join : (db : Db) (pw : Text) (s : Session Db W) → IsQuiet s (gr.join db pw s).1
  pub open_compare : (dsn : Text) (s : Session Db W) → Gives s (gr.open_compare dsn s)
  pub close_compare : (db : Db) (s : Session Db W) → ClosesOne s (gr.close_compare db s).1
  pub pick_restart_candidate :
      (db : Db) (infos : List GtidInfo) (s : Session Db W)
      → IsQuiet s (gr.pick_restart_candidate db infos s).1

module _ {Db W : Type 0} (sql : SqlOps Db W) where
  -- The SQL client fills the controller's interface, and whatever the server answers: a call for a
  -- client or a comparison handle leaves one handle more open if it gives it and none if it fails,
  -- a close closes one, and every other call opens and closes none.
  pub client_ops-Accounts : (fuel : ℕ) → Accounts (client_ops sql fuel)
  client_ops-Accounts fuel = record {
    new_gr_client = λ dsn s. connect-Gives sql fuel dsn s;
    close = λ db s. close-ClosesOne sql db s;
    self_online = λ db s. in_group-IsQuiet sql db s;
    gtid_sets = λ db s. sets-IsQuiet sql db s;
    ensure_replication_user = λ db pw s. ensure-IsQuiet sql db pw s;
    any_online_member = λ db s. any_online-IsQuiet sql db s;
    bootstrap = λ db pw s. bootstrap-IsQuiet sql db pw s;
    join = λ db pw s. join-IsQuiet sql db pw s;
    open_compare = λ dsn s. open-Gives sql dsn s;
    close_compare = λ db s. close-ClosesOne sql db s;
    pick_restart_candidate = λ db infos s. pick-IsQuiet sql db infos s;
  }
