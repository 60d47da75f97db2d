-- ===== src/ExtCodec/RawRpc/Encode.antt =====
-- src/ext_codec/rawrpc.rs, the encoders. `postcard` stands for postcard's serializer with the
-- payload's own `Serialize`: the bytes of an item, or none where it fails.
use rpc_it_rs.Base.{ℕ, Option, none, some, [], ◌++◌, Result, ok, err}
use rpc_it_rs.Defs.{Bytes}
use rpc_it_rs.Codec.{
  DecodeError, invalid_format, EncodeError, serialize_failed, invalid_request_id,
  EncodeResponsePayload, unknown,
}
use rpc_it_rs.Codec.ErrorCodes.{to_u8}
use rpc_it_rs.Codec.RequestIdBytes.{as_bytes, from_bytes}

-- The head over what stands for a byte string: its bytes, or a part of the frame.
pub data Head (A : Type 0) : Type 0 where
  notify : (method : A) → Head A
  request : (request_id method : A) → Head A
  response : (request_id : A) → Head A
  response_err : (request_id : A) (errc : ℕ) → Head A

-- What is serialized: a head, a payload, or the error code as a payload.
pub data Item (S : Type 0) : Type 0 where
  head : Head Bytes → Item S
  value : S → Item S
  code : ℕ → Item S

unfoldable pub restore_request_id : Bytes → Result ℕ DecodeError
restore_request_id raw_id = elim (from_bytes raw_id) [ none ↦ err invalid_format | some id ↦ ok id ]

-- The head and the payload of a response.
unfoldable pub response_items : {S : Type 0} → Bytes → EncodeResponsePayload S → Item S × Item S
response_items id (EncodeResponsePayload.ok r) = (head (response id), value r)
response_items id (EncodeResponsePayload.err_code_only ec) =
    (head (response_err id (to_u8 ec)), code (to_u8 ec))
response_items id (EncodeResponsePayload.err_object_only eo) =
    (head (response_err id (to_u8 unknown)), value eo)
response_items id (EncodeResponsePayload.err ec eo) = (head (response_err id (to_u8 ec)), value eo)

module _ {S : Type 0} (postcard : Item S → Option Bytes) where
  -- The buffer is taken before it is written, so it is left empty on an error.
  unfoldable pub serialize : Item S → Bytes → Bytes × Result (Unit {0}) EncodeError
  serialize item buf = elim (postcard item) [
    | none ↦ ([], err serialize_failed)
    | some written ↦ (buf ++ written, ok tt)
  ]

  abbrev next_item :
      Item S → Bytes × Result (Unit {0}) EncodeError → Bytes × Result (Unit {0}) EncodeError
  next_item item (buf, ok u) = serialize item buf
  next_item item (buf, err e) = (buf, err e)

  -- The head, and the payload behind it.
  unfoldable pub serialize_pair : Item S × Item S → Bytes → Bytes × Result (Unit {0}) EncodeError
  serialize_pair (first, second) buf = next_item second (serialize first buf)

  unfoldable pub encode_notify : Bytes → S → Bytes → Bytes × Result (Unit {0}) EncodeError
  encode_notify method params buf = serialize_pair (head (notify method), value params) buf

  abbrev with_id : ℕ → Bytes × Result (Unit {0}) EncodeError → Bytes × Result ℕ EncodeError
  with_id id (buf, ok u) = (buf, ok id)
  with_id id (buf, err e) = (buf, err e)

  unfoldable pub encode_request : ℕ → Bytes → S → Bytes → Bytes × Result ℕ EncodeError
  encode_request request_id method params buf =
      with_id request_id
        (serialize_pair (head (request (as_bytes request_id) method), value params) buf)

  unfoldable pub encode_response :
      Bytes → EncodeResponsePayload S → Bytes → Bytes × Result (Unit {0}) EncodeError
  encode_response request_id_raw result buf = elim (restore_request_id request_id_raw) [
    | err e ↦ (buf, err invalid_request_id)
    | ok request_id ↦ serialize_pair (response_items (as_bytes request_id) result) buf
  ]
