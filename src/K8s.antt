-- ===== src/K8s.antt =====
-- The crate roder-k8s (crates/k8s): everything that talks to a cluster.
pub mod Pod
pub mod Sanitize
pub mod Errors
pub mod Coordination
pub mod Promql
pub mod Drain
