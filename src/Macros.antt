-- ===== src/Macros.antt =====
-- macros/src, the procedural macro `service`, and src/macros/inbound.rs, which its code builds on.
-- Rust's syntax trees are those of syn, as far as the code reads them.
pub mod GenRoute
pub mod Cached
pub mod GenFunc
