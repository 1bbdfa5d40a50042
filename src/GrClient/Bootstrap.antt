-- ===== src/GrClient/Bootstrap.antt =====
-- `bootstrapGroup` and `ensureReplicationUser`: what they leave on the server.
use yet_another_mysql_operat.Prelude.{
  ◌≡◌, refl, Bool, true, false, List, [], ◌∷◌, Option, none, some, arith, if◌then◌else◌,
}
use yet_another_mysql_operat.Prelude.Result.{Error, no_rows, wrap, Result, ok, err}
use yet_another_mysql_operat.Prelude.Text.{Text, codes, text_eq, contains_byte}
use yet_another_mysql_operat.GrClient.{run_statements, bootstrap_group, ensure_replication_user}
use yet_another_mysql_operat.GrClient.Query
use yet_another_mysql_operat.GrClient.Sql.{
  SqlOps, Session, Call, executed, queried, query_row, exec,
}
use yet_another_mysql_operat.GrClient.Statements.{Outcome, run_statements-Outcome}

-- The variable `group_replication_bootstrap_group`, as the newest statement that sets it says.
abbrev pub bootstrap_flag : {Db : Type 0} → List (Call Db) → Option Bool
bootstrap_flag [] = none
bootstrap_flag (executed _ q _ ∷ sent) =
    if text_eq q Query.bootstrap_on
    then some true
    else if text_eq q Query.bootstrap_off
    then some false
    else bootstrap_flag sent
bootstrap_flag (_ ∷ sent) = bootstrap_flag sent

on_vs_start : text_eq Query.start_group_replication Query.bootstrap_on ≡ false
unfolding text_eq Query.start_group_replication Query.bootstrap_on
on_vs_start = refl

off_vs_start : text_eq Query.start_group_replication Query.bootstrap_off ≡ false
unfolding text_eq Query.start_group_replication Query.bootstrap_off
off_vs_start = refl

off_vs_on : text_eq Query.bootstrap_off Query.bootstrap_on ≡ false
unfolding text_eq Query.bootstrap_off Query.bootstrap_on
off_vs_on = refl

on_vs_on : text_eq Query.bootstrap_on Query.bootstrap_on ≡ true
unfolding text_eq Query.bootstrap_on
on_vs_on = refl

off_vs_off : text_eq Query.bootstrap_off Query.bootstrap_off ≡ true
unfolding text_eq Query.bootstrap_off
off_vs_off = refl

places :
    (contains_byte b'?' Query.bootstrap_on ≡ false)
    × (contains_byte b'?' Query.start_group_replication ≡ true)
    × (contains_byte b'?' Query.bootstrap_off ≡ false)
unfolding contains_byte Query.bootstrap_on Query.start_group_replication Query.bootstrap_off
places = (refl, refl, refl)

module _ {Db W : Type 0} (sql : SqlOps Db W) (db : Db) (pw : Text) where
  -- The world behind the first statement.
  abbrev pub after_on : Session Db W → W
  after_on s = (sql.exec db Query.bootstrap_on [] s.world).1

  -- A bootstrap that succeeds has sent the three statements in order, the password with the START
  -- alone, and the newest statement on the bootstrap flag has turned it off.
  pub bootstrap_ok :
      (s : Session Db W)
      → (bootstrap_group sql db pw s).0 ≡ ok tt
      → ((bootstrap_group sql db pw s).1.sent
          ≡ executed db Query.bootstrap_off []
            ∷ executed db Query.start_group_replication (pw ∷ [])
            ∷ executed db Query.bootstrap_on []
            ∷ s.sent)
        × (bootstrap_flag (bootstrap_group sql db pw s).1.sent ≡ some false)
  unfolding bootstrap_group run_statements exec Query.bootstrap_statements
  bootstrap_ok s h = ground (arith, places, off_vs_on, off_vs_off)

  -- Where the first statement succeeds and the START fails, the bootstrap returns the START's
  -- error, and the newest statement on the bootstrap flag has turned it on.
  pub bootstrap_start_fails :
      (s : Session Db W) (e : Error)
      → (sql.exec db Query.bootstrap_on [] s.world).0 ≡ ok tt
      → (sql.exec db Query.start_group_replication (pw ∷ []) (after_on s)).0 ≡ err e
      → ((bootstrap_group sql db pw s).0 ≡ err (wrap (codes "bootstrap") e))
        × (bootstrap_flag (bootstrap_group sql db pw s).1.sent ≡ some true)
  unfolding bootstrap_group run_statements exec Query.bootstrap_statements
  bootstrap_start_fails s e h k = ground (arith, places, on_vs_start, off_vs_start, on_vs_on)

  abbrev looked_up : Session Db W → Result Text × W
  looked_up s = sql.query_row db Query.replication_user [] s.world

  abbrev pub after_lookup : Session Db W → Session Db W
  after_lookup s = record {
    world = (looked_up s).1;
    sent = queried db Query.replication_user [] ∷ s.sent;
  }

  -- A replication user that is there is left alone: the call succeeds with no statement sent, so
  -- also without the GRANT.
  pub ensure_found :
      (s : Session Db W) (row : Text)
      → (sql.query_row db Query.replication_user [] s.world).0 ≡ ok row
      → ((ensure_replication_user sql db pw s).0 ≡ ok tt)
        × ((ensure_replication_user sql db pw s).1.sent
            ≡ queried db Query.replication_user [] ∷ s.sent)
  unfolding ensure_replication_user query_row
  ensure_found s row h = ground arith

  -- Where the user is not found, its five statements are sent in order, the password with those
  -- that have a place for it. Either the server took them all and the call succeeds, or the call
  -- stopped behind the first that the server refused, and returns that error.
  pub ensure_missing :
      (s : Session Db W)
      → (sql.query_row db Query.replication_user [] s.world).0 ≡ err no_rows
      → Outcome sql
          (codes "ensure replica user")
          db
          pw
          Query.user_statements
          (after_lookup s)
          (ensure_replication_user sql db pw s).1
          (ensure_replication_user sql db pw s).0
  unfolding ensure_replication_user query_row
  ensure_missing s h = rw h (
      run_statements-Outcome sql (codes "ensure replica user") db pw Query.user_statements
        (after_lookup s))
