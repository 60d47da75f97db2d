-- ===== src/ExtCodec/JsonRpc/Responses.antt =====
-- A JSON-RPC response from its encoder to the caller's decoder.
use rpc_it_rs.Base.{
  ℕ, ◌^◌, ◌<◌, ◌≡◌, refl, subst, ap, ◌∙◌, Bool, true, Option, none, some, [], Result, Outcome,
  returns, length,
}
use rpc_it_rs.Base.Int.{ℤ}
use rpc_it_rs.Defs.{Bytes, RangeType, IsU64}
use rpc_it_rs.Codec.{ResponseError, DecodeError, EncodeResponsePayload, InboundFrameType}
use rpc_it_rs.Codec.ErrorCodes.{from_u8}
use rpc_it_rs.ExtCodec.JsonRpc.ErrorCodes.{
  errc_to_error, seen_as, error_to_errc, internal_error, errc_to_error-error_to_errc,
}
use rpc_it_rs.ExtCodec.JsonRpc.RequestId.{to_hex, req_id_from_str, req_id_from_str-to_hex}
use rpc_it_rs.ExtCodec.JsonRpc.Encode.{
  Encode, ErrorEncodeData, msg, obj, version, response_result, response_encode, response_message,
  to_string,
}
use rpc_it_rs.ExtCodec.JsonRpc.Decode.{
  Borrowed, RawData, RawErrorObject, range_of, frame_type, reply_type, decode_inbound, response_to,
  error_frame,
}
use rpc_it_rs.ExtCodec.JsonRpc.Bounds.{IsBorrowedData, IsBorrowed?, IsBorrowedError}
use rpc_it_rs.ExtCodec.JsonRpc.Fields.{
  HasText, HasError, Describes, HasRange, range-HasText, decode_raw-version, decode_inbound-parsed,
}

frame_type-reply :
    (m p id r : Option Borrowed) (e : Option RawErrorObject)
    → m ≡ none
    → frame_type m p id r e ≡ reply_type id r e
unfolding frame_type
frame_type-reply m p id r e same = rw same

internal_error-unknown : errc_to_error internal_error ≡ returns ResponseError.unknown
unfolding errc_to_error from_u8
internal_error-unknown = refl

module _ {S : Type 0} (value_text : S → Bytes) (data_text : ErrorEncodeData S → Bytes)
    (serialize : Encode S → Bytes × Bool) (is_utf8 : Bytes → Bool)
    (parse : Bytes → Option RawData) where
  -- What the caller gets back for a payload: the error code and the text.
  abbrev pub answer_code : EncodeResponsePayload S → Option ResponseError
  answer_code (EncodeResponsePayload.ok r) = none
  answer_code (EncodeResponsePayload.err_code_only ec) = some (seen_as ec)
  answer_code (EncodeResponsePayload.err_object_only o) = some ResponseError.unknown
  answer_code (EncodeResponsePayload.err ec o) = some (seen_as ec)

  abbrev pub answer_text : EncodeResponsePayload S → Bytes
  answer_text (EncodeResponsePayload.ok r) = value_text r
  answer_text (EncodeResponsePayload.err_code_only ec) = data_text (msg (to_string ec))
  answer_text (EncodeResponsePayload.err_object_only o) = data_text (obj o)
  answer_text (EncodeResponsePayload.err ec o) = data_text (obj o)

  abbrev Answers :
      ℕ
      → Option ResponseError
      → Bytes
      → Bytes
      → Outcome (Result InboundFrameType DecodeError)
      → Type 0
  Answers id errc frame text decoded =
      (payload : RangeType) × (decoded
        ≡ returns (Result.ok (InboundFrameType.response id errc payload)))
      × HasRange payload frame text

  reply_ok :
      (id : ℕ) (si s : Borrowed) (error : Option RawErrorObject)
      → req_id_from_str si.text ≡ Result.ok id
      → reply_type (some si) (some s) error
        ≡ returns (Result.ok (InboundFrameType.response id none (range_of s)))
  unfolding reply_type
  reply_ok id si s error e = rw (e, response_to)

  reply_error :
      (id : ℕ) (si s : Borrowed) (o : RawErrorObject) (c : _) (errc : ResponseError)
      → req_id_from_str si.text ≡ Result.ok id
      → o.code ≡ some c
      → errc_to_error c ≡ returns errc
      → o.data_ ≡ some s
      → reply_type (some si) none (some o)
        ≡ returns (Result.ok (InboundFrameType.response id (some errc) (range_of s)))
  unfolding reply_type
  reply_error id si s o c errc e f g h = rw (e, f, g, h, response_to, error_frame)

  read_id :
      (id : ℕ) (field : Option Borrowed)
      → 0 < id
      → IsU64 id
      → HasText field (to_hex id)
      → (s : Borrowed) × (field ≡ some s) × (req_id_from_str s.text ≡ Result.ok id)
  read_id id field positive fits (s, e, t) =
      (s, e, ap req_id_from_str t ∙ (req_id_from_str-to_hex id positive fits).0)

  error-Answers :
      (id : ℕ) (frame : Bytes) (raw : RawData) (code : ℤ) (data_ : ErrorEncodeData S)
      (errc : ResponseError)
      → 0 < id
      → IsU64 id
      → length frame < 2 ^ 32
      → IsBorrowedData frame raw
      → errc_to_error code ≡ returns errc
      → raw.result ≡ none
      → HasError data_text raw.error code data_
      → HasText raw.id (to_hex id)
      → Answers id (some errc) frame (data_text data_) (reply_type raw.id raw.result raw.error)
  error-Answers id frame raw code data_ errc positive fits small b seen nr (o, eo, ec, d) i =
      let (si, ei, ri) = read_id id raw.id positive fits i in
      let inside : IsBorrowed? frame o.data_ = subst (IsBorrowedError frame) eo b.error in
      let (s, es, t) = range-HasText frame o.data_ (data_text data_) small inside d in
      (range_of s, rw (nr, eo, ei) (reply_error id si s o code errc ri ec seen es), t)

  reply-Answers :
      (id : ℕ) (frame : Bytes) (raw : RawData) (result : EncodeResponsePayload S)
      → 0 < id
      → IsU64 id
      → length frame < 2 ^ 32
      → IsBorrowedData frame raw
      → Describes value_text data_text (response_encode (to_hex id) (response_result result)) raw
      → (raw.jsonrpc.text ≡ version)
        × (raw.method ≡ none)
        × Answers id
            (answer_code result)
            frame
            (answer_text result)
            (reply_type raw.id raw.result raw.error)
  unfolding response_result
  reply-Answers id frame raw (EncodeResponsePayload.ok r) positive fits small b (v, m, r', i) =
      let (s, e, t) = range-HasText frame raw.result (value_text r) small b.result r' in
      let (si, ei, ri) = read_id id raw.id positive fits i in
      (v, m, (range_of s, rw (e, ei) (reply_ok id si s raw.error ri), t))
  reply-Answers id frame raw (EncodeResponsePayload.err_code_only ec) positive fits small b
        (v, m, nr, e, i) =
      (
        v,
        m,
        error-Answers id frame raw (error_to_errc ec) (msg (to_string ec)) (seen_as ec) positive
            fits small b (errc_to_error-error_to_errc ec) nr e i,
      )
  reply-Answers id frame raw (EncodeResponsePayload.err_object_only o) positive fits small b
        (v, m, nr, e, i) =
      (
        v,
        m,
        error-Answers id frame raw internal_error (obj o) ResponseError.unknown positive fits small
            b internal_error-unknown nr e i,
      )
  reply-Answers id frame raw (EncodeResponsePayload.err ec o) positive fits small b
        (v, m, nr, e, i) =
      (
        v,
        m,
        error-Answers id frame raw (error_to_errc ec) (obj o) (seen_as ec) positive fits small b
            (errc_to_error-error_to_errc ec) nr e i,
      )

  -- A response to the raw id of a request, the id in hexadecimal, that serde_json writes as a frame
  -- below 2 ^ 32 bytes and parses to the fields it wrote: the caller decodes a response to that id,
  -- without an error code for a result, with `Unknown` for an error object alone, and with the error
  -- code otherwise, `InvalidArgument` for `Unauthorized` and `NonUtf8MethodName`; the payload's range
  -- is the result, the error object, or the message where there is no object.
  pub decode_inbound-response_message :
      (id : ℕ) (result : EncodeResponsePayload S) (frame : Bytes) (raw : RawData)
      → 0 < id
      → IsU64 id
      → serialize (response_encode (to_hex id) (response_result result)) ≡ (frame, true)
      → length frame < 2 ^ 32
      → is_utf8 frame ≡ true
      → is_utf8 (to_hex id) ≡ true
      → parse frame ≡ some raw
      → IsBorrowedData frame raw
      → Describes value_text data_text (response_encode (to_hex id) (response_result result)) raw
      → (response_message serialize is_utf8 (to_hex id) result [] ≡ (frame, Result.ok tt))
        × ((payload : RangeType) × (decode_inbound is_utf8 parse frame
              ≡ returns (Result.ok (InboundFrameType.response id (answer_code result) payload)))
            × HasRange payload frame (answer_text result))
  unfolding response_message
  decode_inbound-response_message id result frame raw positive fits written small u8 h8 parsed b d =
      let (v, m, (payload, e, t)) = reply-Answers id frame raw result positive fits small b d in
      (
        rw (h8, written),
        (
          payload,
          decode_inbound-parsed is_utf8 parse frame raw u8 parsed
              ∙ decode_raw-version raw v
              ∙ frame_type-reply raw.method raw.params raw.id raw.result raw.error m
              ∙ e,
          t,
        ),
      )
