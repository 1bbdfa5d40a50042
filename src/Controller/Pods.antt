-- ===== src/Controller/Pods.antt =====
-- `podReady`, `parseOrdinal` and `buildDSN` of internal/controller/group_replication.go.
use yet_another_mysql_operat.Prelude.{Bool, false, ◌&&◌, ◌||◌, not, List, [], ◌∷◌, ◌++◌, Option}
use yet_another_mysql_operat.Prelude.Text.{Text, codes, text_eq, is_empty, split, last_part}
use yet_another_mysql_operat.Prelude.Decimal.{ℤ, NumError, atoi, show_int}
use yet_another_mysql_operat.Api.{MySql}
use yet_another_mysql_operat.Controller.Objects.{Condition, Pod}
use yet_another_mysql_operat.Controller.Names.{ResourceNames}

unfoldable pub cluster_domain : Text
unfolding codes
cluster_domain = codes "cluster.local"

unfoldable pub has_ready_condition : List Condition → Bool
has_ready_condition [] = false
has_ready_condition (c ∷ cs) =
    (text_eq c.kind (codes "Ready") && text_eq c.status (codes "True")) || has_ready_condition cs

unfoldable pub pod_ready : Pod → Bool
unfolding has_ready_condition
pod_ready pod = has_ready_condition pod.conditions

-- The test at the head of both loops over the pods: the other pods are skipped.
unfoldable pub is_contactable : Pod → Bool
is_contactable pod = pod_ready pod && not (is_empty pod.pod_ip)

-- `strings.Split` returns at least one part, so the branch `len(parts) == 0` is never taken.
unfoldable pub parse_ordinal : Text → ℤ × Option NumError
parse_ordinal pod_name = atoi (last_part (split b'-' pod_name))

unfoldable pub host_of : Pod → ResourceNames → MySql → Text
host_of pod names mysql =
    pod.name
    ++ (codes "."
        ++ (names.service
            ++ (codes "."
                ++ (mysql.namespace
                    ++ (codes ".svc."
                        ++ (cluster_domain ++ (codes ":" ++ show_int mysql.spec.port)))))))

-- `buildDSN`: the error of `parseOrdinal` is dropped, and the value beside it is used.
unfoldable pub build_dsn : Pod → ResourceNames → MySql → Text → ℤ × Text
unfolding host_of
build_dsn pod names mysql root_pass = (
  (parse_ordinal pod.name).0,
  codes "root:"
      ++ (root_pass
          ++ (codes "@tcp("
              ++ (host_of pod names mysql
                  ++ codes
                      ")/?parseTime=true&timeout=5s&readTimeout=5s&writeTimeout=5s&interpolateParams=true"))),
)
