-- ===== src/Logs.antt =====
-- server/src/logs: what of the containers' output an operator is shown.
pub mod Redact
