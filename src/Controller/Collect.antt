-- ===== src/Controller/Collect.antt =====
-- `collectGroupInfo` of internal/controller/group_replication.go.
pub mod Laws
use yet_another_mysql_operat.Prelude.{
  Bool, true, false, ◌&&◌, List, [], ◌∷◌, ◌++◌, Option, none, some, if◌then◌else◌,
}
use yet_another_mysql_operat.Prelude.Result.{Exec, pure, annotate, ◌>>=◌, ◌>>◌}
use yet_another_mysql_operat.Prelude.Text.{Text, codes, is_empty}
use yet_another_mysql_operat.Prelude.Decimal.{ℤ}
use yet_another_mysql_operat.GrClient.Candidate.{GtidInfo}
use yet_another_mysql_operat.Controller.Objects.{Pod}
use yet_another_mysql_operat.Controller.Names.{ResourceNames}
use yet_another_mysql_operat.Controller.Pods.{is_contactable, build_dsn}
use yet_another_mysql_operat.Controller.Env.{
  Env, State, client_opened, compare_opened, ask, acquire, get_mysql, release, guarded,
}

-- The loop's variables: `anyOnline`, `infos` and `cmpDB`.
pub record Collected (Db : Type 0) : Type 0 where
  pub any_online : Bool
  pub infos : List GtidInfo
  pub cmp_db : Option Db

abbrev pub nothing_collected : {Db : Type 0} → Collected Db
nothing_collected = record { any_online = false; infos = []; cmp_db = none }

module _ {Db W : Type 0} (env : Env Db W) where
  -- `if cmpDB == nil { cmpDB, err = sql.Open("mysql", dsn) … }`
  unfoldable pub open_once : Db → Text → Text → Option Db → Exec (State Db W) (Option Db)
  open_once client pod_name dsn (some db) = pure (some db)
  open_once client pod_name dsn none = do
    db ←
        guarded env client (codes "open compare db " ++ pod_name)
          (acquire compare_opened (env.gr.open_compare dsn))
    pure (some db)

  -- An offline pod of a group that waits for a restart candidate.
  unfoldable pub examine : Db → Text → ℤ → Text → Collected Db → Exec (State Db W) (Collected Db)
  unfolding open_once
  examine client pod_name ordinal dsn acc = do
    sets ← guarded env client (codes "gtid sets " ++ pod_name) (ask (env.gr.gtid_sets client))
    let info : GtidInfo = record { pod = pod_name; ordinal = ordinal; sets = sets }
    cmp_db ← open_once client pod_name dsn acc.cmp_db
    pure (record acc { infos = acc.infos ++ info ∷ []; cmp_db = cmp_db })

  module _ (names : ResourceNames) (root_pass : Text) (bootstrapped : Bool) (candidate : Text) where
    -- One round of the loop.
    unfoldable pub collect_pod : Pod → Collected Db → Exec (State Db W) (Collected Db)
    collect_pod pod acc =
        if is_contactable pod
        then (do
          mysql ← get_mysql
          let target = build_dsn pod names mysql root_pass
          client ←
              annotate (codes "connect " ++ pod.name)
                (acquire client_opened (env.gr.new_gr_client target.1))
          online ←
              guarded env client (codes "self online " ++ pod.name)
                (ask (env.gr.self_online client))
          if online then (do release env client; pure (record acc { any_online = true })) else do
            acc' ←
                if bootstrapped && is_empty candidate
                then examine client pod.name target.0 target.1 acc
                else pure acc
            release env client
            pure acc')
        else pure acc

    unfoldable pub collect_pods : List Pod → Collected Db → Exec (State Db W) (Collected Db)
    collect_pods [] acc = pure acc
    collect_pods (pod ∷ pods) acc = do acc' ← collect_pod pod acc; collect_pods pods acc'

    unfoldable pub collect_group_info : List Pod → Exec (State Db W) (Collected Db)
    unfolding collect_pods
    collect_group_info pods = collect_pods pods nothing_collected
