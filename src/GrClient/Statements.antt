-- ===== src/GrClient/Statements.antt =====
-- The statement loop that `ensureReplicationUser` and `bootstrapGroup` share: which statements reach
-- the server, in which order, on success and on failure.
use yet_another_mysql_operat.Prelude.{
  ◌≡◌, inl, inr, refl, sym, ap, ap₂, ◌∙◌, List, [], ◌∷◌, ◌++◌, arith, if◌then◌else◌,
}
use yet_another_mysql_operat.Prelude.Result.{Error, wrap, Result, ok, err, Result-cases, Exec}
use yet_another_mysql_operat.Prelude.Text.{Text, contains_byte}
use yet_another_mysql_operat.GrClient.{run_statements}
use yet_another_mysql_operat.GrClient.Sql.{SqlOps, Session, Call, executed, exec}

-- The password goes with a statement that has a place for it.
abbrev pub arguments : Text → Text → List Text
arguments pw q = if contains_byte b'?' q then pw ∷ [] else []

module _ {Db W : Type 0} (sql : SqlOps Db W) (place : Text) (db : Db) (pw : Text) where
  -- The calls of statements, the last of them first, in front of earlier calls.
  abbrev pub calls_of : List Text → List (Call Db) → List (Call Db)
  calls_of [] before = before
  calls_of (q ∷ qs) before = calls_of qs (executed db q (arguments pw q) ∷ before)

  -- The server takes statements one after the other, from a world to another.
  pub data Takes : List Text → W → W → Type 0 where
    nothing : (w : W) → Takes [] w w
    next :
        (q : Text) (qs : List Text) (w w' : W)
        → (sql.exec db q (arguments pw q) w).0 ≡ ok tt
        → Takes qs (sql.exec db q (arguments pw q) w).1 w'
        → Takes (q ∷ qs) w w'

  -- Either the server took every statement, or the loop stopped right behind one that the server
  -- refused, with all in front of it taken, and the error is that one's, with the place in front.
  pub data Outcome (qs : List Text) (s s' : Session Db W) (r : Result (Unit {0})) : Type 0 where
    completed :
        r ≡ ok tt → Takes qs s.world s'.world → s'.sent ≡ calls_of qs s.sent → Outcome qs s s' r
    stopped :
        (done rest : List Text) (q : Text) (e : Error) (w : W)
        → qs ≡ done ++ q ∷ rest
        → Takes done s.world w
        → sql.exec db q (arguments pw q) w ≡ (err e, s'.world)
        → r ≡ err (wrap place e)
        → s'.sent ≡ executed db q (arguments pw q) ∷ calls_of done s.sent
        → Outcome qs s s' r

  one : Text → Exec (Session Db W) (Unit {0})
  one q = if contains_byte b'?' q then exec sql db q (pw ∷ []) else exec sql db q []

  one-sent :
      (q : Text) (s : Session Db W) → (one q s).1.sent ≡ executed db q (arguments pw q) ∷ s.sent
  unfolding one exec
  one-sent q s = ground arith

  run_statements-ok :
      (q : Text) (qs : List Text) (s : Session Db W)
      → (one q s).0 ≡ ok tt
      → run_statements sql place db pw (q ∷ qs) s ≡ run_statements sql place db pw qs (one q s).1
  unfolding run_statements one
  run_statements-ok q qs s h = ground arith

  run_statements-err :
      (q : Text) (qs : List Text) (s : Session Db W) (e : Error)
      → (one q s).0 ≡ err e
      → run_statements sql place db pw (q ∷ qs) s ≡ (err (wrap place e), (one q s).1)
  unfolding run_statements one
  run_statements-err q qs s e h = ground arith

  one-exec :
      (q : Text) (s : Session Db W)
      → ((one q s).0 ≡ (sql.exec db q (arguments pw q) s.world).0)
        × ((one q s).1.world ≡ (sql.exec db q (arguments pw q) s.world).1)
  unfolding one exec
  one-exec q s = ground arith

  later_outcome :
      (q : Text) (qs : List Text) (s s₁ s' : Session Db W) (r : Result (Unit {0}))
      → (sql.exec db q (arguments pw q) s.world).0 ≡ ok tt
      → s₁.world ≡ (sql.exec db q (arguments pw q) s.world).1
      → s₁.sent ≡ executed db q (arguments pw q) ∷ s.sent
      → Outcome qs s₁ s' r
      → Outcome (q ∷ qs) s s' r
  later_outcome q qs s s₁ s' r k m h (completed a t b) =
      completed a (next q qs s.world s'.world k (rw (sym m) t)) (b ∙ ap (calls_of qs) h)
  later_outcome q qs s s₁ s' r k m h (stopped done rest p e w a t x b c) =
      stopped (q ∷ done) rest p e w (ap (◌∷◌ q) a) (next q done s.world w k (rw (sym m) t)) x b
        (c ∙ ap (λ t. executed db p (arguments pw p) ∷ calls_of done t) h)

  -- Either every statement is executed in order and the loop succeeds, or it stops right behind one
  -- that fails, with that one's error; the password goes with the statements that have a place for
  -- it.
  pub run_statements-Outcome :
      (qs : List Text) (s : Session Db W)
      → Outcome qs s (run_statements sql place db pw qs s).1 (run_statements sql place db pw qs s).0
  run_statements-Outcome [] s = unfold run_statements in completed refl (nothing s.world) refl
  run_statements-Outcome (q ∷ qs) s =
      let (result, world) = one-exec q s in
      elim (Result-cases (one q s).0) [
        | inl (tt, h) ↦ rw (run_statements-ok q qs s h) (
            later_outcome q qs s (one q s).1 _ _ (sym result ∙ h) world (one-sent q s)
              (run_statements-Outcome qs (one q s).1))
        | inr (e, h) ↦ rw (run_statements-err q qs s e h) (
            stopped [] qs q e s.world refl (nothing s.world)
              (ap₂ (λ x y. (x, y)) (sym result ∙ h) (sym world)) refl (one-sent q s))
      ]
