-- ===== src/ExtCodec/JsonRpc.antt =====
-- src/ext_codec/jsonrpc.rs. Serialization and parsing are serde_json's: a text that it borrows from a
-- frame is a range of the frame, and the messages that it is given to write are data.
pub mod ErrorCodes
pub mod RequestId
pub mod Encode
pub mod Decode
pub mod Bounds
pub mod Fields
pub mod Requests
pub mod Responses
pub mod Contract
