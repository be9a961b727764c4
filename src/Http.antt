-- ===== src/Http.antt =====
-- server/src/http: errors.ts, and the part of routes/v1.ts that does not only pass JSON on.
pub mod Errors
pub mod Failure
pub mod Wait
pub mod ToolCalls
pub mod Deadline
pub mod Message
pub mod Turn
pub mod Stream
pub mod Chat
pub mod Embeddings
mod Examples
