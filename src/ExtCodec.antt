-- ===== src/ExtCodec.antt =====
-- src/ext_codec: the codecs of the repository. Serialization is that of other packages.
pub mod JsonRpc
pub mod MsgpackRpc
pub mod RawRpc
