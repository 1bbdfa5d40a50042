-- ===== src/Lib.antt =====
-- A verification of the operator for MySQL with group replication on Kubernetes. The program has two
-- executables. The manager (cmd/main.go) runs the reconcile loop of internal/controller: for each
-- custom resource it writes two secrets, a config map, a headless service and a StatefulSet, and then,
-- once all pods are ready, connects to the servers and bootstraps, joins or restarts the replication
-- group. The init container (cmd/init/main.go) runs in each pod before MySQL and writes two option
-- files that give the server its identity and the group's seeds.
--
-- The modules, and the code that they model:
-- - Prelude: Go's strings as byte lists, errors and actions with a state, maps as association lists,
--   sorted keys, decimal numbers on 64 bits (`strconv.Atoi`, the verb `%d`).
-- - Api: api/v1alpha1/mysql_types.go; Api/Webhook: `Default` of api/v1alpha1/mysql_webhook.go;
--   Api/DeepCopy: api/v1alpha1/zz_generated.deepcopy.go, over a memory in which maps, slices and pointers
--   are addresses.
-- - Util: internal/controller/util, its constants and `ClusterSecretName`; Util/Hash:
--   `HashConfigMapData`.
-- - ConfigMap: internal/controller/k8s/configmap/config_map.go, `RenderMySQLConfig` and its tables.
-- - GrClient: internal/controller/mysql/groupreplication/gr_client.go. Its state is a session: the world
--   behind `database/sql` and the calls made. Candidate has `PickRestartCandidate`, Connect has
--   `waitForMySQL` and `New`, Query the SQL texts, Sql the interface of `database/sql`.
-- - Controller: internal/controller. Env has the interfaces that a reconciliation uses and its state: the
--   world behind them, the object `mysql` that Go's functions share by pointer, and the calls made. Pods,
--   Collect, ReconcilePods and GroupReplication model group_replication.go: `podReady`, `parseOrdinal`,
--   `buildDSN`; `collectGroupInfo`; `reconcilePods`; `reconcileGroupReplication` with its secrets and its
--   deferred close. Secrets models secrets.go. Names, Stages, StatefulSet/Template and Reconcile model
--   mysql_controller.go: `buildResourceNames`; the stages with the functions given to `CreateOrUpdate`;
--   the StatefulSet; `Reconcile`, `failStatus` and `handleReconcileError`.
--   Controller/Recovery states what the passes do for a group that is down, over laws of the servers.
-- - Manager: cmd/main.go with `SetupWithManager` and `SetupWebhookWithManager`. CommandLine has the flags
--   and their parsing, Tls the TLS options as Go slices over arrays, Order the phases of the start.
-- - Init: cmd/init/main.go, from `getEnv` to `writeFile` and `main`.
-- - Examples: concrete surroundings, and a run of each theorem.
--
-- Conventions. A Go `int` is an integer within the bounds that `Atoi` tests, an error a value that keeps
-- what the program asks of it, and a returned pair of value and error a result. A list of calls has the
-- newest first. A loop over a slice is structural recursion. `waitForMySQL` loops until its context ends: it
-- runs on fuel, and more fuel than the context has ticks left is enough. The digits of `n` are printed on
-- fuel `n + 1`, which is enough since each round divides by ten; reading a printed number back gives the
-- number. `sort.Slice` is an insertion sort, which Go runs up to twelve elements; of a longer slice only the
-- ordinal of the first element counts.
--
-- What is not under the repository is a parameter: `database/sql` with the driver (`SqlOps`), the Kubernetes
-- client (`KubeOps`), `CreateOrUpdate`, `SetControllerReference`, `MustParse` (whose panic is an error),
-- `IntOrString.String` and SHA-256 (`Cluster`), the crypto packages (`CryptoOps`), the system below the init
-- container (`HostOps`), `uuid.NewString`. What is relied on of them is a hypothesis with a name: `IsRetry`
-- (`RetryOnConflict` runs its function again only after a conflict), `Subtracts` (the server computes
-- GTID differences), `EndsContext` (a context ends after some ticks), `ListsDistinct` (listed pods have
-- different names), `Readable` (the object can be read), `RunsAs` (the kubelet's environment),
-- `Server` (`CreateOrUpdate` without an error has stored what its function made; a write of an object changes
-- no other; defaults that the API server fills in keep annotations and references).
--
-- Of the manager's libraries, `certwatcher.New`, the flags of the logger and the manager of
-- controller-runtime are parameters (`ManagerOps`, `OtherFlags`); `append` is modelled with the capacities that
-- Go gives a slice of pointers. For a restart the servers are described by `Answers` (they answer, and a server
-- joins a group that is up) and `Refuses` (a join fails while the group is down), the API server and what the
-- servers tell by `Apart` and `Supplies`; Examples/Servers has servers behind the program's own client that keep
-- these laws. `Accounts` and `KubeIsQuiet` say which calls open and close handles of `database/sql`. The
-- metadata of the library is copied by parameters, which keep the law `Copies`; a `Reading` says what a value in
-- memory reads as, and from which addresses.
--
-- Not modelled: logging; the registration of the types, which only calls libraries; tests. The registration
-- of signal handlers is part of the parameter that starts the manager.

pub mod Prelude
pub mod Api
pub mod Util
pub mod ConfigMap
pub mod GrClient
pub mod Controller
pub mod Manager
pub mod Init
pub mod Examples
