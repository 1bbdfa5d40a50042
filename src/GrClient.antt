-- ===== src/GrClient.antt =====
-- internal/controller/mysql/groupreplication/gr_client.go: the SQL client of group replication.
-- `database/sql` and the MySQL driver are the record `SqlOps` over an abstract world.
pub mod Query
pub mod Sql
pub mod Candidate
pub mod Connect
pub mod Statements
pub mod Bootstrap
pub mod Join
use Sql.{SqlOps, Session, query_row, exec}
use yet_another_mysql_operat.Prelude.{
  ℕ, Bool, true, false, ◌||◌, ◌&&◌, ◌==◌, List, [], ◌∷◌, Option, none, some, if◌then◌else◌, ltb,
  leb, ◌-◌,
}
use yet_another_mysql_operat.Prelude.Result.{
  Error, no_rows, mysql_error, wrap, Result, ok, err, Exec, pure, raise, annotate, attempt, ◌>>=◌,
  ◌>>◌,
}
use yet_another_mysql_operat.Prelude.Text.{Text, codes, text_eq, contains_byte}

pub record GtidSets : Type 0 where
  pub executed : Text
  pub certified : Text

-- `strings.EqualFold` at an ASCII text without the letters K and S
unfoldable pub upper : ℕ → ℕ
upper c = if leb b'a' c && leb c b'z' then c - 32 else c

unfoldable pub equal_fold : Text → Text → Bool
unfolding upper
equal_fold [] [] = true
equal_fold [] (d ∷ t) = false
equal_fold (c ∷ s) [] = false
equal_fold (c ∷ s) (d ∷ t) = upper c == upper d && equal_fold s t

-- `errors.As(err, &me)` with `me.Number == 3663`: a MySQL error under any wrapping
unfoldable pub is_still_joining : Error → Bool
is_still_joining (mysql_error n _) = n == 3663
is_still_joining (wrap _ e) = is_still_joining e
is_still_joining _ = false

module _ {Db W : Type 0} (sql : SqlOps Db W) where
  -- The loop over `statements`: a statement with a `?` is given the password.
  unfoldable pub run_statements : Text → Db → Text → List Text → Exec (Session Db W) (Unit {0})
  run_statements place db pw [] = pure tt
  run_statements place db pw (q ∷ qs) = do
    annotate place (if contains_byte b'?' q then exec sql db q (pw ∷ []) else exec sql db q [])
    run_statements place db pw qs

  -- `ensureReplicationUser`, from the result of its query on
  unfoldable pub create_unless_found : Db → Text → Result Text → Exec (Session Db W) (Unit {0})
  create_unless_found db pw (ok _) = pure tt
  create_unless_found db pw (err no_rows) =
      run_statements (codes "ensure replica user") db pw Query.user_statements
  create_unless_found db pw (err e) = raise (wrap (codes "ensure replica user") e)

  unfoldable pub ensure_replication_user : Db → Text → Exec (Session Db W) (Unit {0})
  unfolding create_unless_found
  ensure_replication_user db pw = do
    exists ← attempt (query_row sql db Query.replication_user [])
    create_unless_found db pw exists

  -- `bootstrapGroup`
  unfoldable pub bootstrap_group : Db → Text → Exec (Session Db W) (Unit {0})
  bootstrap_group db pw = run_statements (codes "bootstrap") db pw Query.bootstrap_statements

  unfoldable pub or_offline : Result Text → Exec (Session Db W) Text
  or_offline (ok state) = pure state
  or_offline (err no_rows) = pure (codes "OFFLINE")
  or_offline (err e) = raise e

  -- `localStateDesc`
  unfoldable pub local_state_desc : Db → Exec (Session Db W) Text
  unfolding or_offline
  local_state_desc db = do state ← attempt (query_row sql db Query.local_state []); or_offline state

  -- `joinGroup`, from the result of its statement on
  unfoldable pub joined : Result (Unit {0}) → Exec (Session Db W) (Unit {0})
  joined (ok _) = pure tt
  joined (err e) = if is_still_joining e then pure tt else raise (wrap (codes "join") e)

  unfoldable pub join_group : Db → Text → Exec (Session Db W) (Unit {0})
  unfolding joined
  join_group db pw = do
    state ← annotate (codes "local state") (local_state_desc db)
    if text_eq state (codes "ONLINE") || text_eq state (codes "RECOVERING") then pure tt else do
      started ← attempt (exec sql db Query.start_group_replication (pw ∷ []))
      joined started

  -- A row is a yes, no row is a no, any other error is passed on.
  unfoldable pub found_row : Result Text → Exec (Session Db W) Bool
  found_row (ok _) = pure true
  found_row (err no_rows) = pure false
  found_row (err e) = raise e

  -- `anyOnlineMember`
  unfoldable pub any_online_member : Db → Exec (Session Db W) Bool
  unfolding found_row
  any_online_member db = do
    online ← attempt (query_row sql db Query.online_member [])
    found_row online

  unfoldable pub is_online : Result Text → Exec (Session Db W) Bool
  is_online (ok state) = pure (equal_fold state (codes "ONLINE"))
  is_online (err no_rows) = pure false
  is_online (err e) = raise e

  -- `inGroup`
  unfoldable pub in_group : Db → Exec (Session Db W) Bool
  unfolding is_online
  in_group db = do state ← attempt (query_row sql db Query.own_state []); is_online state

  unfoldable pub or_nothing_received : Result Text → Exec (Session Db W) Text
  or_nothing_received (ok received) = pure received
  or_nothing_received (err no_rows) = pure []
  or_nothing_received (err e) = raise (wrap (codes "received transaction set") e)

  -- `GTIDSets`
  unfoldable pub gtid_sets : Db → Exec (Session Db W) GtidSets
  unfolding or_nothing_received
  gtid_sets db = do
    gtid_executed ← annotate (codes "gtid_executed") (query_row sql db Query.gtid_executed [])
    received ← attempt (query_row sql db Query.received_set [])
    certified ← or_nothing_received received
    pure (record { executed = gtid_executed; certified = certified })
