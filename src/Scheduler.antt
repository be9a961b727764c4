-- ===== src/Scheduler.antt =====
-- server/src/scheduler: the queue of requests, their placement on replicas, and the affinity of
-- conversations. `now` is the time of the statement that reads `now()`.
pub mod Settings
pub mod Queue
pub mod Keda
pub mod Affinity
pub mod Placement
pub mod Examples
