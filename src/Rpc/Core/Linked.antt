-- ===== src/Rpc/Core/Linked.antt =====
-- No request reaches the writing task of a connection without a request context.
pub mod Queue
pub mod Answers
pub mod Frames
pub mod Invariant
pub mod Running
