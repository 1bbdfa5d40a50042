-- ===== src/GrClient/Candidate/Laws.antt =====
-- Which pod is chosen for a restart, against a server that computes the difference of GTID sets.
use yet_another_mysql_operat.Prelude.{
  ◌≡◌, ◌≢◌, ◌⊎◌, inl, inr, refl, true, false, ◌&&◌, Bool, List, [], ◌∷◌, Option, none, some, arith,
  All, Any, Bool-cases, Option-cases, if◌then◌else◌,
}
use yet_another_mysql_operat.Prelude.Result.{ok}
use yet_another_mysql_operat.Prelude.Text.{Text, text_eq, text_eq_iff, is_empty, is_empty_iff}
use yet_another_mysql_operat.Prelude.Decimal.{ℤ, int_lt}
use yet_another_mysql_operat.GrClient.{GtidSets}
use yet_another_mysql_operat.GrClient.Query
use yet_another_mysql_operat.GrClient.Sql.{SqlOps, Session, query_row}
use yet_another_mysql_operat.GrClient.Candidate.{
  GtidInfo, insert_info, sort_infos, first_pod, superset, covers_all, first_superset,
  pick_restart_candidate,
}

int_lt-chain : (a b c : ℤ) → int_lt a b ≡ false → int_lt b c ≡ false → int_lt a c ≡ false
int_lt-chain a b c h k = ground arith

-- No listed ordinal is below.
abbrev pub Lowest : ℤ → List GtidInfo → Type 0
Lowest n = All (λ b. int_lt b.ordinal n ≡ false)

Lowest-chain : (m n : ℤ) (xs : List GtidInfo) → Lowest m xs → int_lt m n ≡ false → Lowest n xs
Lowest-chain m n [] h k = tt
Lowest-chain m n (x ∷ xs) h k = (int_lt-chain x.ordinal m n h.0 k, Lowest-chain m n xs h.1 k)

int_lt_irrefl : (a : ℤ) → int_lt a a ≡ false
int_lt_irrefl a = ground arith

int_lt-asym : (a b : ℤ) → int_lt a b ≡ true → int_lt b a ≡ false
int_lt-asym a b h = ground arith

record SortedHead (xs : List GtidInfo) : Type 0 where
  head : GtidInfo
  rest : List GtidInfo
  shape : sort_infos xs ≡ head ∷ rest
  lowest : Lowest head.ordinal xs
  member : Any (λ b. b ≡ head) xs

sorted_head : (x : GtidInfo) (xs : List GtidInfo) → SortedHead (x ∷ xs)
unfolding sort_infos
sorted_head x [] = record {
  head = x;
  rest = [];
  shape = refl;
  lowest = (int_lt_irrefl x.ordinal, tt);
  member = inl refl;
}
sorted_head x (y ∷ ys) =
    let h = sorted_head y ys in
    elim (Bool-cases (int_lt h.head.ordinal x.ordinal)) [
      | inl below ↦ record {
        head = h.head;
        rest = insert_info x h.rest;
        shape = rw (h.shape, insert_info, below);
        lowest = (int_lt-asym h.head.ordinal x.ordinal below, h.lowest);
        member = inr h.member;
      }
      | inr above ↦ record {
        head = x;
        rest = h.head ∷ h.rest;
        shape = rw (h.shape, insert_info, above);
        lowest = (
          int_lt_irrefl x.ordinal,
          Lowest-chain h.head.ordinal x.ordinal (y ∷ ys) h.lowest above,
        );
        member = inl refl;
      }
    ]

module _ (subtract : Text → Text → Text) where
  -- Nothing of `other` is missing from `candidate`.
  abbrev pub Covers : GtidSets → GtidSets → Type 0
  Covers candidate other =
      (subtract other.executed candidate.executed ≡ [])
      × (subtract other.certified candidate.certified ≡ [])

  abbrev pub Dominates : GtidInfo → List GtidInfo → Type 0
  Dominates a = All (λ b. a.pod ≢ b.pod → Covers a.sets b.sets)

  covers : GtidSets → GtidSets → Bool
  covers c o =
      is_empty (subtract o.executed c.executed) && is_empty (subtract o.certified c.certified)

  dominates : GtidInfo → List GtidInfo → Bool
  dominates a [] = true
  dominates a (b ∷ bs) =
      if text_eq a.pod b.pod then dominates a bs else covers a.sets b.sets && dominates a bs

  dominates_sound : (a : GtidInfo) (bs : List GtidInfo) → dominates a bs ≡ true → Dominates a bs
  unfolding dominates covers
  dominates_sound a [] h = tt
  dominates_sound a (b ∷ bs) h = ground (
    arith,
    dominates_sound a bs,
    text_eq_iff a.pod b.pod,
    is_empty_iff (subtract b.sets.executed a.sets.executed),
    is_empty_iff (subtract b.sets.certified a.sets.certified),
  )

  dominates_complete :
      (a : GtidInfo) (bs : List GtidInfo) → dominates a bs ≡ false → ¬ Dominates a bs
  unfolding dominates covers
  dominates_complete a [] h d = cc
  dominates_complete a (b ∷ bs) h d = ground (
    arith,
    dominates_complete a bs,
    text_eq_iff a.pod b.pod,
    is_empty_iff (subtract b.sets.executed a.sets.executed),
    is_empty_iff (subtract b.sets.certified a.sets.certified),
  )

  find_dominant : List GtidInfo → List GtidInfo → Option GtidInfo
  find_dominant infos [] = none
  find_dominant infos (a ∷ rest) = if dominates a infos then some a else find_dominant infos rest

  found_is_dominant :
      (infos rest : List GtidInfo) (p : GtidInfo)
      → find_dominant infos rest ≡ some p
      → (dominates p infos ≡ true) × Any (λ b. b ≡ p) rest
  unfolding find_dominant
  found_is_dominant infos [] p h = cc
  found_is_dominant infos (a ∷ rest) p h = elim (Bool-cases (dominates a infos)) [
    | inl top ↦ let e : a ≡ p = ground arith in (rw (← e) top, inl e)
    | inr low ↦ let (top, m) = found_is_dominant infos rest p (ground arith) in (top, inr m)
  ]

  none_dominant :
      (infos rest : List GtidInfo)
      → find_dominant infos rest ≡ none
      → All (λ a. ¬ Dominates a infos) rest
  unfolding find_dominant
  none_dominant infos [] h = tt
  none_dominant infos (a ∷ rest) h =
      (dominates_complete a infos (ground arith), none_dominant infos rest (ground arith))

  -- The pod that the rule asks for: one whose sets cover the sets of every other pod if there is
  -- such a pod, and otherwise one of the lowest ordinal.
  pub record IsChoice (infos : List GtidInfo) (pod : Text) : Type 0 where
    pub info : GtidInfo
    pub named : info.pod ≡ pod
    pub member : Any (λ b. b ≡ info) infos
    pub reason :
        Dominates info infos ⊎ (All (λ a. ¬ Dominates a infos) infos × Lowest info.ordinal infos)

  choose : List GtidInfo → Option GtidInfo → Text
  choose infos (some p) = p.pod
  choose infos none = first_pod (sort_infos infos)

  choose-IsChoice :
      (i : GtidInfo) (is : List GtidInfo)
      → IsChoice (i ∷ is) (choose (i ∷ is) (find_dominant (i ∷ is) (i ∷ is)))
  unfolding choose first_pod
  choose-IsChoice i is = elim (Option-cases (find_dominant (i ∷ is) (i ∷ is))) [
    | inl e ↦
        let h = sorted_head i is in
        record {
          info = h.head;
          named = rw (e, choose, h.shape);
          member = h.member;
          reason = inr (none_dominant (i ∷ is) (i ∷ is) e, h.lowest);
        }
    | inr (p, e) ↦
        let (top, m) = found_is_dominant (i ∷ is) (i ∷ is) p e in
        record {
          info = p;
          named = rw (e, choose);
          member = m;
          reason = inl (dominates_sound p (i ∷ is) top);
        }
  ]

  -- The server answers `SELECT GTID_SUBTRACT(a, b)` with the difference, in every state.
  abbrev pub Subtracts : {Db W : Type 0} → SqlOps Db W → Db → Type 0
  Subtracts {W} sql db =
      (a b : Text) (w : W)
      → (sql.query_row db Query.gtid_subtract (a ∷ b ∷ []) w).0 ≡ ok (subtract a b)

  module _ {Db W : Type 0} (sql : SqlOps Db W) (db : Db) (computes : Subtracts sql db) where
    superset-covers :
        (c o : GtidSets) (s : Session Db W) → (superset sql db c o s).0 ≡ ok (covers c o)
    unfolding superset covers query_row
    superset-covers c o s = ground (
      arith,
      computes o.executed c.executed s.world,
      computes o.certified c.certified
          (sql.query_row db Query.gtid_subtract (o.executed ∷ c.executed ∷ []) s.world).1,
    )

    covers_all-dominates :
        (a : GtidInfo) (bs : List GtidInfo) (s : Session Db W)
        → (covers_all sql db a bs s).0 ≡ ok (dominates a bs)
    unfolding covers_all dominates
    covers_all-dominates a [] s = refl
    covers_all-dominates a (b ∷ bs) s = ground (
      arith,
      superset-covers a.sets b.sets s,
      covers_all-dominates a bs s,
      covers_all-dominates a bs (superset sql db a.sets b.sets s).1,
    )

    pod_of : Option GtidInfo → Option Text
    pod_of none = none
    pod_of (some p) = some p.pod

    first_superset-find :
        (infos rest : List GtidInfo) (s : Session Db W)
        → (first_superset sql db infos rest s).0 ≡ ok (pod_of (find_dominant infos rest))
    unfolding first_superset find_dominant pod_of
    first_superset-find infos [] s = refl
    first_superset-find infos (a ∷ rest) s = ground (
      arith,
      covers_all-dominates a infos s,
      first_superset-find infos rest (covers_all sql db a infos s).1,
    )

    pick-choose :
        (i : GtidInfo) (is : List GtidInfo) (s : Session Db W)
        → (pick_restart_candidate sql db (i ∷ is) s).0
          ≡ ok (choose (i ∷ is) (find_dominant (i ∷ is) (i ∷ is)))
    unfolding pick_restart_candidate choose pod_of
    pick-choose i is s = ground (arith, first_superset-find (i ∷ is) (i ∷ is) s)

    -- On a server that computes the difference of GTID sets the choice among at least one pod
    -- succeeds. The pod chosen covers the sets of all the others, or, if no pod does, it has the
    -- lowest ordinal.
    pub pick-IsChoice :
        (infos : List GtidInfo) (s : Session Db W)
        → infos ≢ []
        → (pod : Text) × ((pick_restart_candidate sql db infos s).0 ≡ ok pod) × IsChoice infos pod
    pick-IsChoice [] s ne = absurd (ne refl)
    pick-IsChoice (i ∷ is) s ne = (
      choose (i ∷ is) (find_dominant (i ∷ is) (i ∷ is)),
      pick-choose i is s,
      choose-IsChoice i is,
    )
