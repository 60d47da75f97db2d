-- ===== src/ExtCodec/MsgpackRpc/Encode.antt =====
-- src/ext_codec/msgpack_rpc.rs, the encoders. `serialize` stands for rmp_serde with the payload's own
-- `Serialize`: the bytes that it appends to the buffer, and whether it succeeds. `read_u32` stands for
-- `rmp::decode::read_u32`.
use Prim.Native.String.{String}
use rpc_it_rs.Base.{
  ℕ, ◌-◌, ◌%◌, ◌^◌, Bool, Option, none, some, ◌++◌, Result, ok, err, ◌==◌, ltb, if◌then◌else◌,
}
use rpc_it_rs.Defs.{Bytes}
use rpc_it_rs.Codec.{EncodeError, serialize_failed, invalid_request_id, EncodeResponsePayload}
use rpc_it_rs.Codec.ErrorCodes.{to_str}

abbrev pub type_id_request : ℕ
type_id_request = 0

abbrev pub type_id_response : ℕ
type_id_response = 1

abbrev pub type_id_notification : ℕ
type_id_notification = 2

-- The third element of a response: `()`, `(code, ())`, an object, or `(code, object)`.
pub data ErrorSlot (S : Type 0) : Type 0 where
  nil : ErrorSlot S
  code_only : String → ErrorSlot S
  object : S → ErrorSlot S
  code_and_object : String → S → ErrorSlot S

-- The tuples that are serialized; a response has its result in the fourth element, or `()`.
pub data Message (S : Type 0) : Type 0 where
  notification : (type_id : ℕ) (method : Bytes) (params : S) → Message S
  request : (type_id req_id : ℕ) (method : Bytes) (params : S) → Message S
  response : (type_id req_id : ℕ) (error : ErrorSlot S) (result : Option S) → Message S

-- The request id in the 32-bit range: the lower half, or 1 where that is zero.
unfoldable pub fold_req_id : ℕ → ℕ
fold_req_id req_id =
    if ltb (2 ^ 32 - 1) req_id
    then (if req_id % 2 ^ 32 == 0 then 1 else req_id % 2 ^ 32)
    else req_id

-- The tuple of a response.
unfoldable pub response_tuple : {S : Type 0} → ℕ → EncodeResponsePayload S → Message S
response_tuple req_id (EncodeResponsePayload.ok r) = response type_id_response req_id nil (some r)
response_tuple req_id (EncodeResponsePayload.err_code_only ec) =
    response type_id_response req_id (code_only (to_str ec)) none
response_tuple req_id (EncodeResponsePayload.err_object_only o) =
    response type_id_response req_id (object o) none
response_tuple req_id (EncodeResponsePayload.err ec o) =
    response type_id_response req_id (code_and_object (to_str ec) o) none

abbrev pub number : Option (ℕ × Bytes) → Option ℕ
number none = none
number (some (n, rest)) = some n

-- `retrieve_req_id`: what follows the number is left.
abbrev pub retrieve_req_id : (Bytes → Option (ℕ × Bytes)) → Bytes → Option ℕ
retrieve_req_id read_u32 raw = number (read_u32 raw)

module _ {S : Type 0} (serialize : Message S → Bytes × Bool)
    (read_u32 : Bytes → Option (ℕ × Bytes)) where
  -- `.serialize(..)` into the buffer.
  abbrev write_to : {A : Type 0} → Message S → A → Bytes → Bytes × Result A EncodeError
  write_to m a buf =
      let (written, success) = serialize m in
      (buf ++ written, if success then ok a else err serialize_failed)

  unfoldable pub encode_notify : Bytes → S → Bytes → Bytes × Result (Unit {0}) EncodeError
  encode_notify method params buf =
      write_to (notification type_id_notification method params) tt buf

  -- The id that is returned is the one that was written.
  unfoldable pub encode_request : ℕ → Bytes → S → Bytes → Bytes × Result ℕ EncodeError
  encode_request req_id method params buf =
      let folded = fold_req_id req_id in
      write_to (request type_id_request (folded % 2 ^ 32) method params) folded buf

  unfoldable pub encode_response :
      Bytes → EncodeResponsePayload S → Bytes → Bytes × Result (Unit {0}) EncodeError
  encode_response raw_req_id result buf = elim (retrieve_req_id read_u32 raw_req_id) [
    | none ↦ (buf, err invalid_request_id)
    | some req_id ↦ write_to (response_tuple req_id result) tt buf
  ]
