-- ===== src/Types.antt =====
-- server/src/types.ts: the values that the router's parts exchange.
--
-- A text that the program walks character by character is the list of its UTF-16 code units; a
-- text that it only compares is a `String`. A JSON value that is passed on unread is its text.
-- Times and durations are milliseconds.
mod Instances
pub mod Defs
pub use Defs.*
pub use Instances.*
