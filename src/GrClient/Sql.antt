-- ===== src/GrClient/Sql.antt =====
-- What gr_client.go uses of `database/sql` and the MySQL driver, as an interface, and the session in
-- which its functions run: the world behind the interface and the calls made, the newest first.
use yet_another_mysql_operat.Prelude.{ℕ, List, ◌∷◌}
use yet_another_mysql_operat.Prelude.Result.{Result, ok, err, Exec}
use yet_another_mysql_operat.Prelude.Text.{Text}

pub record SqlOps (Db W : Type 0) : Type 0 where
  -- `sql.Open("mysql", dsn)`
  pub open_db : Text → Exec W Db
  -- `db.PingContext(ctx)`
  pub ping : Db → Exec W (Unit {0})
  -- `db.QueryRowContext(ctx, query, args...).Scan(&v)`
  pub query_row : Db → Text → List Text → Exec W Text
  -- `db.ExecContext(ctx, query, args...)`
  pub exec : Db → Text → List Text → Exec W (Unit {0})
  -- `db.Close()`
  pub close_db : Db → Exec W (Unit {0})
  -- `select` on `ctx.Done()`, with `ctx.Err()`, and `time.After(tick)`, for `tick` in seconds
  pub wait_tick : ℕ → Exec W (Unit {0})

-- An open is listed if it gave a handle.
pub data Call (Db : Type 0) : Type 0 where
  opened : Db → Call Db
  pinged : Db → Call Db
  queried : Db → Text → List Text → Call Db
  executed : Db → Text → List Text → Call Db
  closed : Db → Call Db

pub record Session (Db W : Type 0) : Type 0 where
  pub world : W
  pub sent : List (Call Db)

abbrev pub note_open : {Db : Type 0} → Result Db → List (Call Db) → List (Call Db)
note_open (ok db) sent = opened db ∷ sent
note_open (err e) sent = sent

module _ {Db W : Type 0} where
  -- Runs an operation of the world and lists the call.
  abbrev pub issue : {A : Type 0} → Call Db → Exec W A → Exec (Session Db W) A
  issue c m s = let (r, w) = m s.world in (r, record { world = w; sent = c ∷ s.sent })

module _ {Db W : Type 0} (sql : SqlOps Db W) where
  unfoldable pub open_db : Text → Exec (Session Db W) Db
  open_db dsn s =
      let (r, w) = sql.open_db dsn s.world in (r, record { world = w; sent = note_open r s.sent })

  unfoldable pub ping : Db → Exec (Session Db W) (Unit {0})
  ping db = issue (pinged db) (sql.ping db)

  unfoldable pub query_row : Db → Text → List Text → Exec (Session Db W) Text
  query_row db q args = issue (queried db q args) (sql.query_row db q args)

  unfoldable pub exec : Db → Text → List Text → Exec (Session Db W) (Unit {0})
  exec db q args = issue (executed db q args) (sql.exec db q args)

  unfoldable pub close_db : Db → Exec (Session Db W) (Unit {0})
  close_db db = issue (closed db) (sql.close_db db)

  unfoldable pub wait_tick : ℕ → Exec (Session Db W) (Unit {0})
  wait_tick seconds s = let (r, w) = sql.wait_tick seconds s.world in (r, record s { world = w })
