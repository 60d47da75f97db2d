-- ===== src/ExtCodec/MsgpackRpc.antt =====
-- src/ext_codec/msgpack_rpc.rs: the MessagePack-RPC codec.
pub mod Encode
pub mod Decode
pub mod Bounds
pub mod Format
pub mod Requests
pub mod Responses
