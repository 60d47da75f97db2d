-- ===== src/Rpc/Exchange.antt =====
-- One call over both sides of a connection.
pub mod Contract
pub mod Sides
pub mod Call
