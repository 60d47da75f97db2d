-- ===== src/Rpc.antt =====
-- src/rpc: the connection core, its senders, receivers and pending requests.
pub mod Types
pub mod ReqRep
pub mod WriteRunner
pub mod Sender
pub mod Burst
pub mod Inbound
pub mod Receiver
pub mod Core
pub mod Exchange
