-- ===== src/Replicas.antt =====
-- server/src/replicas: which replicas exist, and whether they can take work.
pub mod Reconcile
pub mod Discovery
mod Examples
