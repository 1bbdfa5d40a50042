-- ===== src/GrClient/Candidate.antt =====
-- `superset` and `PickRestartCandidate`.
pub mod Laws
use yet_another_mysql_operat.Prelude.{
  Bool, true, false, ◌&&◌, List, [], ◌∷◌, Option, none, some, if◌then◌else◌,
}
use yet_another_mysql_operat.Prelude.Result.{plain, Exec, pure, raise, annotate, ◌>>=◌}
use yet_another_mysql_operat.Prelude.Text.{Text, codes, text_eq, is_empty}
use yet_another_mysql_operat.Prelude.Decimal.{ℤ, int_lt}
use yet_another_mysql_operat.GrClient.{GtidSets}
use yet_another_mysql_operat.GrClient.Query
use yet_another_mysql_operat.GrClient.Sql.{SqlOps, Session, query_row}

pub record GtidInfo : Type 0 where
  pub pod : Text
  pub ordinal : ℤ
  pub sets : GtidSets

-- `sort.Slice` by ordinal. Up to twelve elements it is an insertion sort, and the sort is stable;
-- of a longer slice only the ordinal of the first element is used.
unfoldable pub insert_info : GtidInfo → List GtidInfo → List GtidInfo
insert_info x [] = x ∷ []
insert_info x (y ∷ ys) = if int_lt y.ordinal x.ordinal then y ∷ insert_info x ys else x ∷ y ∷ ys

unfoldable pub sort_infos : List GtidInfo → List GtidInfo
unfolding insert_info
sort_infos [] = []
sort_infos (x ∷ xs) = insert_info x (sort_infos xs)

-- `infos[0].Pod`, of a list that is not empty
unfoldable pub first_pod : List GtidInfo → Text
first_pod [] = []
first_pod (x ∷ xs) = x.pod

module _ {Db W : Type 0} (sql : SqlOps Db W) where
  -- Both differences are computed before either is looked at.
  unfoldable pub superset : Db → GtidSets → GtidSets → Exec (Session Db W) Bool
  superset db candidate other = do
    diff_exec ←
        annotate (codes "compare executed")
          (query_row sql db Query.gtid_subtract (other.executed ∷ candidate.executed ∷ []))
    diff_cert ←
        annotate (codes "compare certified")
          (query_row sql db Query.gtid_subtract (other.certified ∷ candidate.certified ∷ []))
    pure (is_empty diff_exec && is_empty diff_cert)

  -- The inner loop: it stops at the first `b` that `a` does not cover.
  unfoldable pub covers_all : Db → GtidInfo → List GtidInfo → Exec (Session Db W) Bool
  covers_all db a [] = pure true
  covers_all db a (b ∷ bs) =
      let rest = covers_all db a bs in
      if text_eq a.pod b.pod
      then rest
      else do is_superset ← superset db a.sets b.sets; if is_superset then rest else pure false

  -- The outer loop, over what is left of `infos`.
  unfoldable pub first_superset :
      Db → List GtidInfo → List GtidInfo → Exec (Session Db W) (Option Text)
  first_superset db infos [] = pure none
  first_superset db infos (a ∷ rest) =
      let next = first_superset db infos rest in
      do is_superset ← covers_all db a infos; if is_superset then pure (some a.pod) else next

  unfoldable pub or_lowest : List GtidInfo → Option Text → Exec (Session Db W) Text
  or_lowest infos (some pod) = pure pod
  or_lowest infos none = pure (first_pod (sort_infos infos))

  unfoldable pub pick_restart_candidate : Db → List GtidInfo → Exec (Session Db W) Text
  unfolding or_lowest
  pick_restart_candidate db [] = raise (plain (codes "no GTID info to choose from"))
  pick_restart_candidate db (i ∷ is) = do
    found ← first_superset db (i ∷ is) (i ∷ is)
    or_lowest (i ∷ is) found
