-- ===== src/Codec.antt =====
-- src/codec.rs: error codes, errors, frames, and the `Codec` trait as an interface.
pub mod ErrorCodes
pub mod RequestIdBytes
use rpc_it_rs.Base.{ℕ, Option, Result}
use rpc_it_rs.Defs.{Bytes, RangeType}

pub data ResponseError : Type 0 where
  unknown invalid_argument unauthorized busy method_not_found aborted unhandled : ResponseError
  non_utf8_method_name parse_failed : ResponseError

-- `SerializeFailed` carries no detail here (`SerDeError` is a unit struct without the feature
-- `detailed-parse-errors`).
pub data EncodeError : Type 0 where
  unsupported_action non_utf8_string_method_name non_utf8_string_payload_content : EncodeError
  invalid_request_id serialize_failed not_reusable request_id_allocation_failed : EncodeError

pub data DecodeError : Type 0 where
  unsupported_action unsupported_protocol invalid_format non_utf8_input : DecodeError
  buffer_size_exceeded : ℕ → DecodeError
  parse_failed : DecodeError

pub data EncodeResponsePayload (S : Type 0) : Type 0 where
  ok : S → EncodeResponsePayload S
  err_code_only : ResponseError → EncodeResponsePayload S
  err_object_only : S → EncodeResponsePayload S
  err : ResponseError → S → EncodeResponsePayload S

pub data InboundFrameType : Type 0 where
  request : (raw_request_id method params : RangeType) → InboundFrameType
  notify : (method params : RangeType) → InboundFrameType
  response : (request_id : ℕ) (errc : Option ResponseError) (payload : RangeType) → InboundFrameType

-- The trait `Codec` over the values `S` that can be serialized. A method that takes `&mut buf`
-- returns the buffer as it leaves it, on errors too.
pub record Codec (S : Type 0) : Type 0 where
  pub codec_reusability_id : ℕ
  pub encode_notify : Bytes → S → Bytes → Bytes × Result (Unit {0}) EncodeError
  pub encode_request : ℕ → Bytes → S → Bytes → Bytes × Result ℕ EncodeError
  pub encode_response :
      Bytes → EncodeResponsePayload S → Bytes → Bytes × Result (Unit {0}) EncodeError
  pub decode_inbound : Bytes → Bytes → Bytes × Bytes × Result InboundFrameType DecodeError
  pub restore_request_id : Bytes → Result ℕ DecodeError
