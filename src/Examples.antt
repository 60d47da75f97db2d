-- ===== src/Examples.antt =====
-- The theorems at concrete inputs.
mod Pending
mod Writing
mod Receiving
mod Routes
mod Pipe
mod JsonRpc
mod Rmp
mod MsgpackRpc
mod Macros
mod Postcard
mod PostcardReads
mod RawRpc
mod Connections
mod Exchange
