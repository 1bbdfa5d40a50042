-- ===== src/GrClient/Connect.antt =====
-- `waitForMySQL` and `New`. The loop runs on fuel, one round for each attempt; `none` means that
-- the fuel ran out.
pub mod Laws
use yet_another_mysql_operat.Prelude.{ℕ, zero, suc, [], ◌∷◌, Option, none, some}
use yet_another_mysql_operat.Prelude.Result.{Result, ok, err, Exec, pure, attempt, ◌>>=◌, ◌>>◌}
use yet_another_mysql_operat.Prelude.Text.{Text}
use yet_another_mysql_operat.GrClient.Query
use yet_another_mysql_operat.GrClient.Sql.{
  SqlOps, Session, open_db, ping, query_row, close_db, wait_tick,
}

module _ {Db W : Type 0} (sql : SqlOps Db W) where
  -- `ensureSelectable`
  unfoldable pub ensure_selectable : Db → Exec (Session Db W) (Unit {0})
  ensure_selectable db = do query_row sql db Query.select_one []; pure tt

  -- The handle is returned if the checks passed, and closed otherwise.
  unfoldable pub keep_or_close : Db → Result (Unit {0}) → Exec (Session Db W) (Option Db)
  keep_or_close db (ok _) = pure (some db)
  keep_or_close db (err _) = do attempt (close_db sql db); pure none

  unfoldable pub check_handle : Result Db → Exec (Session Db W) (Option Db)
  unfolding keep_or_close ensure_selectable
  check_handle (err _) = pure none
  check_handle (ok db) = do
    checked ← attempt (do ping sql db; ensure_selectable db)
    keep_or_close db checked

  -- The part of the loop body in front of the `select`.
  unfoldable pub try_connect : Text → Exec (Session Db W) (Option Db)
  unfolding check_handle
  try_connect dsn = do opened ← attempt (open_db sql dsn); check_handle opened

  unfoldable pub wait_for_mysql : ℕ → Text → ℕ → Exec (Session Db W) (Option Db)
  wait_for_mysql zero dsn tick = pure none
  wait_for_mysql (suc fuel) dsn tick = do
    handle ← try_connect dsn
    elim handle [
      | some db ↦ pure (some db)
      | none ↦ do wait_tick sql tick; wait_for_mysql fuel dsn tick
    ]

  -- `New`: the client is its handle.
  unfoldable pub new_client : ℕ → Text → Exec (Session Db W) (Option Db)
  unfolding wait_for_mysql
  new_client fuel dsn = wait_for_mysql fuel dsn 2
