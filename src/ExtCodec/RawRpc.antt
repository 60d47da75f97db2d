-- ===== src/ExtCodec/RawRpc.antt =====
-- src/ext_codec/rawrpc.rs, the codec of adjacent postcard items.
pub mod Encode
pub mod Decode
pub mod Reads
pub mod Bounds
pub mod Contract
pub mod RoundTrip
