-- ===== src/Routing.antt =====
-- server/src/routing: which model serves a request.
pub mod Capabilities
pub mod Complexity
pub mod Select
mod Tests
mod Examples
