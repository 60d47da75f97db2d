-- ===== src/ExtCodec/JsonRpc/Encode.antt =====
-- src/ext_codec/jsonrpc.rs, the encoders of `Codec`: the local `Encode` structs and what is written.
-- `serialize` stands for serde_json with the payload's own `Serialize`: the bytes that it appends to
-- the buffer, and whether it succeeds.
use rpc_it_rs.Base.{ℕ, Bool, Option, none, some, ◌++◌, Result, if◌then◌else◌}
use rpc_it_rs.Base.Int.{ℤ}
use rpc_it_rs.Base.Text.{codes}
use rpc_it_rs.Defs.{Bytes}
use rpc_it_rs.Codec.{
  ResponseError, unknown, invalid_argument, unauthorized, busy, method_not_found, aborted,
  unhandled, non_utf8_method_name, parse_failed, EncodeError, serialize_failed, invalid_request_id,
  EncodeResponsePayload,
}
use rpc_it_rs.ExtCodec.JsonRpc.ErrorCodes.{error_to_errc, internal_error}
use rpc_it_rs.ExtCodec.JsonRpc.RequestId.{to_hex}

pub data ErrorEncodeData (S : Type 0) : Type 0 where
  msg : Bytes → ErrorEncodeData S
  obj : S → ErrorEncodeData S

pub record ErrorEncode (S : Type 0) : Type 0 where
  pub code : ℤ
  pub message : Bytes
  pub data_ : ErrorEncodeData S

-- `Encode` of a notification, of a request and of a response.
pub data Encode (S : Type 0) : Type 0 where
  encode_notify : (jsonrpc method : Bytes) (params : S) → Encode S
  encode_request : (jsonrpc method : Bytes) (params : S) (id : Bytes) → Encode S
  encode_response :
      (jsonrpc : Bytes) (result : Option S) (error : Option (ErrorEncode S)) (id : Bytes) → Encode S

abbrev pub version : Bytes
version = codes "2.0"

-- `ResponseError`'s `Display`.
unfoldable pub to_string : ResponseError → Bytes
to_string unknown =
    codes "Error code couldn't parsed. Parse the payload to acquire more information"
to_string invalid_argument = codes "Server failed to parse the request argument."
to_string unauthorized = codes "Unauthorized access to the requested method"
to_string busy = codes "Server is too busy!"
to_string method_not_found = codes "Requested method was not routed"
to_string aborted = codes "Server explicitly aborted the request"
to_string unhandled = codes "Server unhandled the request"
to_string non_utf8_method_name = codes "Non UTF-8 Method Name"
to_string parse_failed = codes "Couldn't parse the request message"

-- The `result` that `encode_response` computes first.
unfoldable pub response_result : {S : Type 0} → EncodeResponsePayload S → Result S (ErrorEncode S)
unfolding error_to_errc to_string
response_result (EncodeResponsePayload.ok r) = Result.ok r
response_result (EncodeResponsePayload.err_code_only ec) =
    Result.err
      (record { code = error_to_errc ec; message = to_string ec; data_ = msg (to_string ec) })
response_result (EncodeResponsePayload.err_object_only o) =
    Result.err (record { code = internal_error; message = codes "internal error"; data_ = obj o })
response_result (EncodeResponsePayload.err ec o) =
    Result.err (record { code = error_to_errc ec; message = to_string ec; data_ = obj o })

-- The `encode` that `encode_response` serializes.
abbrev pub response_encode : {S : Type 0} → Bytes → Result S (ErrorEncode S) → Encode S
response_encode id (Result.ok r) = encode_response version (some r) none id
response_encode id (Result.err e) = encode_response version none (some e) id

module _ {S : Type 0} (serialize : Encode S → Bytes × Bool) (is_utf8 : Bytes → Bool) where
  -- `.serialize(&mut serde_json::Serializer::new(buf.writer()))`.
  abbrev write_to : {A : Type 0} → Encode S → A → Bytes → Bytes × Result A EncodeError
  write_to e a buf =
      let (written, success) = serialize e in
      (buf ++ written, if success then Result.ok a else Result.err serialize_failed)

  unfoldable pub notify_message : Bytes → S → Bytes → Bytes × Result (Unit {0}) EncodeError
  notify_message method params buf = write_to (encode_notify version method params) tt buf

  unfoldable pub request_message : ℕ → Bytes → S → Bytes → Bytes × Result ℕ EncodeError
  unfolding to_hex
  request_message request_id method params buf =
      write_to (encode_request version method params (to_hex request_id)) request_id buf

  unfoldable pub response_message :
      Bytes → EncodeResponsePayload S → Bytes → Bytes × Result (Unit {0}) EncodeError
  unfolding response_result
  response_message request_id_raw result buf =
      if is_utf8 request_id_raw
      then write_to (response_encode request_id_raw (response_result result)) tt buf
      else (buf, Result.err invalid_request_id)
