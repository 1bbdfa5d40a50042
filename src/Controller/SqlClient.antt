-- ===== src/Controller/SqlClient.antt =====
-- The type `Client` of internal/controller/mysql/groupreplication/gr_client.go as the client that the
-- controller uses, its world being the session of the SQL calls.
pub mod Accounts
use yet_another_mysql_operat.Prelude.{ℕ, Option, none, some}
use yet_another_mysql_operat.Prelude.Result.{plain, Exec, pure, raise, ◌>>=◌}
use yet_another_mysql_operat.Prelude.Text.{Text, codes}
use yet_another_mysql_operat.GrClient.{
  ensure_replication_user, bootstrap_group, join_group, any_online_member, in_group, gtid_sets,
}
use yet_another_mysql_operat.GrClient.Sql
use yet_another_mysql_operat.GrClient.Sql.{SqlOps, Session}
use yet_another_mysql_operat.GrClient.Candidate.{pick_restart_candidate}
use yet_another_mysql_operat.GrClient.Connect.{new_client}
use yet_another_mysql_operat.Controller.Env.{GrOps}

module _ {Db W : Type 0} (sql : SqlOps Db W) where
  -- Out of fuel is an error here, which enough fuel never meets.
  unfoldable pub with_fuel : Option Db → Exec (Session Db W) Db
  with_fuel (some db) = pure db
  with_fuel none = raise (plain (codes "out of fuel"))

  -- `newGRClient`, with the fuel of its wait
  unfoldable pub connect : ℕ → Text → Exec (Session Db W) Db
  unfolding with_fuel
  connect fuel dsn = do handle ← new_client sql fuel dsn; with_fuel handle

  abbrev pub client_ops : ℕ → GrOps Db (Session Db W)
  client_ops fuel = record {
    new_gr_client = connect fuel;
    close = Sql.close_db sql;
    self_online = in_group sql;
    gtid_sets = gtid_sets sql;
    ensure_replication_user = ensure_replication_user sql;
    any_online_member = any_online_member sql;
    bootstrap = bootstrap_group sql;
    join = join_group sql;
    open_compare = Sql.open_db sql;
    close_compare = Sql.close_db sql;
    pick_restart_candidate = pick_restart_candidate sql;
  }
