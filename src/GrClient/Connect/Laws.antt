-- ===== src/GrClient/Connect/Laws.antt =====
-- The wait for MySQL ends when its context does, and closes every handle that it does not return.
use yet_another_mysql_operat.Prelude.{
  ℕ, zero, suc, ◌+◌, ◌≤◌, ◌<◌, ◌≡◌, ◌≢◌, ◌⊎◌, List, [], ◌∷◌, Option, none, some, arith,
}
use yet_another_mysql_operat.Prelude.Result.{Error, Result, ok, err}
use yet_another_mysql_operat.Prelude.Text.{Text}
use yet_another_mysql_operat.GrClient.Sql.{
  SqlOps, Session, Call, opened, closed, open_db, ping, query_row, close_db, wait_tick,
}
use yet_another_mysql_operat.GrClient.Connect.{try_connect, wait_for_mysql}

-- Handles that were opened, and calls that closed one.
abbrev pub opens : {Db : Type 0} → List (Call Db) → ℕ
opens [] = 0
opens (opened _ ∷ sent) = suc (opens sent)
opens (_ ∷ sent) = opens sent

abbrev pub closes : {Db : Type 0} → List (Call Db) → ℕ
closes [] = 0
closes (closed _ ∷ sent) = suc (closes sent)
closes (_ ∷ sent) = closes sent

-- One for a handle in the result.
abbrev pub returned : {Db : Type 0} → Result (Option Db) → ℕ
returned (ok (some db)) = 1
returned (ok none) = 0
returned (err _) = 0

-- From `s` to `s'`, as many handles were closed as were opened, the returned one apart.
abbrev pub Balanced : {Db W : Type 0} → Session Db W → Session Db W → Result (Option Db) → Type 0
Balanced s s' r = opens s'.sent + closes s.sent ≡ closes s'.sent + opens s.sent + returned r

module _ {Db W : Type 0} (sql : SqlOps Db W) where
  try_connect-Balanced :
      (dsn : Text) (s : Session Db W)
      → Balanced s (try_connect sql dsn s).1 (try_connect sql dsn s).0
  unfolding try_connect open_db ping query_row close_db
  try_connect-Balanced dsn s = ground arith

  -- The wait closes as many handles as it opens, the one that it returns apart, on every path and
  -- on any fuel.
  pub wait_for_mysql-Balanced :
      (fuel : ℕ) (dsn : Text) (tick : ℕ) (s : Session Db W)
      → Balanced s (wait_for_mysql sql fuel dsn tick s).1 (wait_for_mysql sql fuel dsn tick s).0
  unfolding wait_for_mysql wait_tick
  wait_for_mysql-Balanced zero dsn tick s = omega arith
  wait_for_mysql-Balanced (suc fuel) dsn tick s = ground (
    arith,
    try_connect-Balanced dsn s,
    wait_for_mysql-Balanced fuel dsn tick (wait_tick sql tick (try_connect sql dsn s).1).1,
  )

  -- The context ends after some ticks: a number of them is left in each world, no call adds to it,
  -- and a wait uses one up or reports the end.
  pub record EndsContext (left : W → ℕ) : Type 0 where
    pub open_keeps : (dsn : Text) (w : W) → left (sql.open_db dsn w).1 ≤ left w
    pub ping_keeps : (db : Db) (w : W) → left (sql.ping db w).1 ≤ left w
    pub query_keeps :
        (db : Db) (q : Text) (args : List Text) (w : W)
        → left (sql.query_row db q args w).1 ≤ left w
    pub close_keeps : (db : Db) (w : W) → left (sql.close_db db w).1 ≤ left w
    pub tick_counts :
        (tick : ℕ) (w : W)
        → ((e : Error) × ((sql.wait_tick tick w).0 ≡ err e))
          ⊎ (left (sql.wait_tick tick w).1 < left w)

  module _ (left : W → ℕ) (ends : EndsContext left) where
    try_connect_keeps :
        (dsn : Text) (s : Session Db W) → left (try_connect sql dsn s).1.world ≤ left s.world
    unfolding try_connect open_db ping query_row close_db
    try_connect_keeps dsn s =
        grind (arith, ends.open_keeps, ends.ping_keeps, ends.query_keeps, ends.close_keeps)

    -- Where the context ends after some ticks, the wait on more fuel than ticks are left returns a
    -- handle or an error, and never runs out of fuel.
    pub wait_for_mysql_ends :
        (fuel : ℕ) (dsn : Text) (tick : ℕ) (s : Session Db W)
        → left s.world < fuel
        → (wait_for_mysql sql fuel dsn tick s).0 ≢ ok none
    unfolding wait_for_mysql wait_tick
    wait_for_mysql_ends zero dsn tick s h = elim h [ ]
    wait_for_mysql_ends (suc fuel) dsn tick s h = ground (
      arith,
      try_connect_keeps dsn s,
      ends.tick_counts tick (try_connect sql dsn s).1.world,
      wait_for_mysql_ends fuel dsn tick (wait_tick sql tick (try_connect sql dsn s).1).1,
    )
