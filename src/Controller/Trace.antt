-- ===== src/Controller/Trace.antt =====
-- Counting calls in a trace.
use yet_another_mysql_operat.Prelude.{ℕ, suc, List, [], ◌∷◌, Option, none, some}
use yet_another_mysql_operat.Api.{MySqlStatus}
use yet_another_mysql_operat.Controller.Env.{
  Event, client_opened, client_closed, user_ensured, bootstrapped, joined, compare_opened,
  compare_closed, wrote_status,
}

-- Group replication clients.
abbrev pub clients_opened : {Db : Type 0} → List (Event Db) → ℕ
clients_opened [] = 0
clients_opened (client_opened _ ∷ t) = suc (clients_opened t)
clients_opened (_ ∷ t) = clients_opened t

abbrev pub clients_closed : {Db : Type 0} → List (Event Db) → ℕ
clients_closed [] = 0
clients_closed (client_closed _ ∷ t) = suc (clients_closed t)
clients_closed (_ ∷ t) = clients_closed t

-- Handles for comparing GTID sets.
abbrev pub compares_opened : {Db : Type 0} → List (Event Db) → ℕ
compares_opened [] = 0
compares_opened (compare_opened _ ∷ t) = suc (compares_opened t)
compares_opened (_ ∷ t) = compares_opened t

abbrev pub compares_closed : {Db : Type 0} → List (Event Db) → ℕ
compares_closed [] = 0
compares_closed (compare_closed _ ∷ t) = suc (compares_closed t)
compares_closed (_ ∷ t) = compares_closed t

-- Attempts to bootstrap a group.
abbrev pub bootstraps : {Db : Type 0} → List (Event Db) → ℕ
bootstraps [] = 0
bootstraps (bootstrapped _ ∷ t) = suc (bootstraps t)
bootstraps (_ ∷ t) = bootstraps t

-- Calls that change a database server: creating the user, bootstrapping, joining.
abbrev pub changes : {Db : Type 0} → List (Event Db) → ℕ
changes [] = 0
changes (user_ensured _ ∷ t) = suc (changes t)
changes (bootstrapped _ ∷ t) = suc (changes t)
changes (joined _ ∷ t) = suc (changes t)
changes (_ ∷ t) = changes t

-- Attempts to write the status.
abbrev pub status_writes : {Db : Type 0} → List (Event Db) → ℕ
status_writes [] = 0
status_writes (wrote_status _ ∷ t) = suc (status_writes t)
status_writes (_ ∷ t) = status_writes t

-- The status of the newest such attempt.
abbrev pub last_written : {Db : Type 0} → List (Event Db) → Option MySqlStatus
last_written [] = none
last_written (wrote_status status ∷ t) = some status
last_written (_ ∷ t) = last_written t
