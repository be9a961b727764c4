-- ===== src/Audit.antt =====
-- server/src/audit: which prompts are kept, the history of requests, and its deletion.
pub mod Scope
pub mod History
pub mod Entries
mod Examples
