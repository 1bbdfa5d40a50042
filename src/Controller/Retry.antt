-- ===== src/Controller/Retry.antt =====
-- What the controller relies on of `retry.RetryOnConflict`: it runs the function at least once, and
-- runs it again only after a conflict; the last run's result is the result.
use yet_another_mysql_operat.Prelude.{◌≡◌, true}
use yet_another_mysql_operat.Prelude.Result.{Error, Result, err, Exec, is_conflict}
use yet_another_mysql_operat.Controller.Env.{Env, State}

module _ {S : Type 0} (f : Exec S (Unit {0})) where
  pub data Retried (r : Result (Unit {0}) × S) : S → Type 0 where
    last : (s : S) → r ≡ f s → Retried r s
    again :
        (s : S) (e : Error)
        → (f s).0 ≡ err e
        → is_conflict e ≡ true
        → Retried r (f s).1
        → Retried r s

  -- What every run keeps, the retry keeps.
  Retried_keeps :
      (P : S → Type 0)
      → ((t : S) → P t → P (f t).1)
      → {r : Result (Unit {0}) × S} (s : S) → Retried r s
      → P s
      → P r.1
  Retried_keeps P keep s (last t e) h = rw e (keep t h)
  Retried_keeps P keep s (again t _ _ _ more) h = Retried_keeps P keep (f t).1 more (keep t h)

  -- What every run establishes, the retry establishes.
  Retried_ends :
      (P : S → Type 0)
      → ((t : S) → P (f t).1)
      → {r : Result (Unit {0}) × S} (s : S) → Retried r s
      → P r.1
  Retried_ends P hold s (last t e) = rw e (hold t)
  Retried_ends P hold s (again t _ _ _ more) = Retried_ends P hold (f t).1 more

pub record IsRetry {Db W : Type 0} (env : Env Db W) : Type 0 where
  pub runs : (f : Exec (State Db W) (Unit {0})) (s : State Db W) → Retried f (env.retry f s) s

module _ {Db W : Type 0} (env : Env Db W) (law : IsRetry env) where
  pub retry_keeps :
      (f : Exec (State Db W) (Unit {0})) (P : State Db W → Type 0)
      → ((t : State Db W) → P t → P (f t).1)
      → (s : State Db W) → P s
      → P (env.retry f s).1
  retry_keeps f P keep s = Retried_keeps f P keep s (law.runs f s)

  pub retry_ends :
      (f : Exec (State Db W) (Unit {0})) (P : State Db W → Type 0)
      → ((t : State Db W) → P (f t).1)
      → (s : State Db W) → P (env.retry f s).1
  retry_ends f P hold s = Retried_ends f P hold s (law.runs f s)
