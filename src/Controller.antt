-- ===== src/Controller.antt =====
-- internal/controller: the reconciler, one module for each family of functions.
pub mod Objects
pub mod Env
pub mod SqlClient
pub mod Names
pub mod StatefulSet
pub mod Crypto
pub mod Secrets
pub mod Pods
pub mod Retry
pub mod Trace
pub mod Collect
pub mod ReconcilePods
pub mod GroupReplication
pub mod Stages
pub mod Recovery
pub mod Reconcile
