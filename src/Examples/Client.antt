-- ===== src/Examples/Client.antt =====
-- Runs of the SQL client's theorems.
use yet_another_mysql_operat.Prelude.{
  ◌≡◌, ◌≢◌, ◌<◌, ◌⊎◌, zero, suc, refl, ℕ, true, List, [], ◌∷◌, none, some, inl, inr, arith,
  if◌then◌else◌,
}
use yet_another_mysql_operat.Prelude.Result.{ok, err, Error, no_rows, wrap, plain, mysql_error}
use yet_another_mysql_operat.Prelude.Text.{Text, codes, text_eq}
use yet_another_mysql_operat.Prelude.Decimal.{pos}
use yet_another_mysql_operat.GrClient.{
  bootstrap_group, ensure_replication_user, join_group, joined, is_still_joining, local_state_desc,
}
use yet_another_mysql_operat.GrClient.Query
use yet_another_mysql_operat.GrClient.Sql.{SqlOps, query_row, exec}
use yet_another_mysql_operat.GrClient.Candidate.{GtidInfo, pick_restart_candidate}
use yet_another_mysql_operat.GrClient.Candidate.Laws.{IsChoice, Subtracts, pick-IsChoice}
use yet_another_mysql_operat.GrClient.Connect.{wait_for_mysql}
use yet_another_mysql_operat.GrClient.Connect.Laws.{EndsContext, wait_for_mysql_ends}
use yet_another_mysql_operat.GrClient.Statements.{Outcome}
use yet_another_mysql_operat.GrClient.Bootstrap.{
  bootstrap_flag, bootstrap_start_fails, after_lookup, ensure_missing,
}
use yet_another_mysql_operat.GrClient.Join.{told, IsOut, Starts, Rests, join_starts}
use yet_another_mysql_operat.Controller.SqlClient.{client_ops}
use yet_another_mysql_operat.Controller.SqlClient.Accounts.{Accounts, client_ops-Accounts}
use yet_another_mysql_operat.Examples.{server, tick_left, refused, fresh, rest_of}

abbrev working : SqlOps ℕ ℕ
working = server (ok tt) (ok tt)

abbrev two_infos : List GtidInfo
two_infos =
    record {
      pod = codes "db-1";
      ordinal = pos 1;
      sets = record { executed = codes "u:1-5"; certified = [] };
    }
    ∷ record {
      pod = codes "db-0";
      ordinal = pos 0;
      sets = record { executed = codes "u:1-5"; certified = [] };
    }
    ∷ []

computes : Subtracts rest_of working 7
computes a b w = refl

pick-IsChoice_example :
    (pod : Text) × ((pick_restart_candidate working 7 two_infos (fresh 0)).0 ≡ ok pod)
    × IsChoice rest_of two_infos pod
pick-IsChoice_example = pick-IsChoice rest_of working 7 computes two_infos (fresh 0) (λ e. cc)

-- The server does not answer pings, and the context ends after two ticks.
abbrev silent : SqlOps ℕ ℕ
silent = server refused (ok tt)

tick_counts : (w : ℕ) → ((e : Error) × ((tick_left w).0 ≡ err e)) ⊎ ((tick_left w).1 < w)
tick_counts zero = inl (plain (codes "context deadline exceeded"), refl)
tick_counts (suc w) = inr (omega arith)

silent_ends : EndsContext silent (λ w. w)
silent_ends = record {
  open_keeps = λ dsn w. omega arith;
  ping_keeps = λ db w. omega arith;
  query_keeps = λ db q args w. omega arith;
  close_keeps = λ db w. omega arith;
  tick_counts = λ tick w. tick_counts w;
}

wait_for_mysql_ends_example : (wait_for_mysql silent 9 (codes "dsn") 2 (fresh 2)).0 ≢ ok none
wait_for_mysql_ends_example =
    wait_for_mysql_ends silent (λ w. w) silent_ends 9 (codes "dsn") 2 (fresh 2) (omega arith)

-- Only the start of group replication fails.
abbrev no_start : SqlOps ℕ ℕ
no_start = record {
  open_db = λ dsn w. (ok 7, w);
  ping = λ db w. (ok tt, w);
  query_row = λ db q args w. (err no_rows, w);
  exec = λ db q args w. (if text_eq q Query.start_group_replication then refused else ok tt, w);
  close_db = λ db w. (ok tt, w);
  wait_tick = λ tick w. (ok tt, w);
}

bootstrap_start_fails_example :
    ((bootstrap_group no_start 7 (codes "pw") (fresh 0)).0
      ≡ err (wrap (codes "bootstrap") (plain (codes "refused"))))
    × (bootstrap_flag (bootstrap_group no_start 7 (codes "pw") (fresh 0)).1.sent ≡ some true)
unfolding text_eq Query.start_group_replication Query.bootstrap_on
bootstrap_start_fails_example =
    bootstrap_start_fails no_start 7 (codes "pw") (fresh 0) (plain (codes "refused")) refl refl

-- Every query finds the same row.
abbrev finds : Text → SqlOps ℕ ℕ
finds row = record {
  open_db = λ dsn w. (ok 7, w);
  ping = λ db w. (ok tt, w);
  query_row = λ db q args w. (ok row, w);
  exec = λ db q args w. (ok tt, w);
  close_db = λ db w. (ok tt, w);
  wait_tick = λ tick w. (ok tt, w);
}

ensure_missing_example :
    Outcome no_start
      (codes "ensure replica user")
      7
      (codes "pw")
      Query.user_statements
      (after_lookup no_start 7 (codes "pw") (fresh 0))
      (ensure_replication_user no_start 7 (codes "pw") (fresh 0)).1
      (ensure_replication_user no_start 7 (codes "pw") (fresh 0)).0
ensure_missing_example = ensure_missing no_start 7 (codes "pw") (fresh 0) refl

-- The server is offline, and the START fails with the number given.
abbrev starting : ℕ → SqlOps ℕ ℕ
starting n = record (finds (codes "OFFLINE")) { exec = λ db q args w. (err (mysql_error n []), w) }

join_starts_example :
    (IsOut (told (starting 3663) 7 (codes "pw") (fresh 0)).0
      × Starts (starting 3663) 7 (codes "pw") (fresh 0))
    ⊎ ((IsOut (told (starting 3663) 7 (codes "pw") (fresh 0)).0 → ⊥)
        × Rests (starting 3663) 7 (codes "pw") (fresh 0))
join_starts_example = join_starts (starting 3663) 7 (codes "pw") (fresh 0)

-- The error 3663 counts as a success, 3092 does not.
join_3663 : (join_group (starting 3663) 7 (codes "pw") (fresh 0)).0 ≡ ok tt
unfolding join_group joined is_still_joining local_state_desc query_row exec text_eq codes
join_3663 = refl

join_3092 :
    (join_group (starting 3092) 7 (codes "pw") (fresh 0)).0
    ≡ err (wrap (codes "join") (mysql_error 3092 []))
unfolding join_group joined is_still_joining local_state_desc query_row exec text_eq codes
join_3092 = refl

client_ops-Accounts_example : Accounts (client_ops silent 9)
client_ops-Accounts_example = client_ops-Accounts silent 9
