-- ===== src/Examples/JsonRpc.antt =====
-- The theorems on the JSON-RPC codec at concrete frames.
use rpc_it_rs.Base.{
  ℕ, ◌+◌, ◌≡◌, refl, subst, Bool, true, Option, none, some, [], ◌∷◌, ◌++◌, Result, returns, panics,
  slice, leb, ◌&&◌, arith, ap, length, if◌then◌else◌, Outcome,
}
use mathlib.Core.Option.{some-injective}
use rpc_it_rs.Base.Text.{codes}
use rpc_it_rs.Base.Int.{negsuc}
use rpc_it_rs.Defs.{Bytes, RangeType}
use rpc_it_rs.Rpc.Exchange.Contract.{Carries}
use rpc_it_rs.ExtCodec.JsonRpc.Contract.{IsJsonRpc, Written, jsonrpc-Carries}
use rpc_it_rs.Codec.{Codec, DecodeError, busy, EncodeResponsePayload, InboundFrameType, request}
use rpc_it_rs.Codec.ErrorCodes.{to_u8}
use rpc_it_rs.ExtCodec.JsonRpc.RequestId.{
  to_hex, hex_digits, from_str_radix, read_digits, push_digit, req_id_from_str,
}
use rpc_it_rs.ExtCodec.JsonRpc.ErrorCodes.{error_to_errc}
use rpc_it_rs.ExtCodec.JsonRpc.Encode.{
  Encode, ErrorEncodeData, msg, obj, version, response_result, response_encode, notify_message,
  request_message, response_message,
}
use rpc_it_rs.ExtCodec.JsonRpc.Decode.{
  Borrowed, RawData, decode_inbound, decode_raw, frame_type, restore_request_id,
}
use rpc_it_rs.ExtCodec.JsonRpc.Bounds.{IsBorrowedData, RestInBounds, decode_inbound_bounds}
use rpc_it_rs.ExtCodec.JsonRpc.Fields.{Describes, HasRange}
use rpc_it_rs.ExtCodec.JsonRpc.Requests.{decode_inbound-request_message}
use rpc_it_rs.ExtCodec.JsonRpc.Responses.{decode_inbound-response_message}
use rpc_it_rs.Rpc.Receiver.Frame.{FrameInBounds}

abbrev all_ascii : Bytes → Bool
all_ascii [] = true
all_ascii (b ∷ bs) = leb b 127 && all_ascii bs

-- A payload is a digit.
abbrev digit_text : ℕ → Bytes
digit_text n = (b'0' + n) ∷ []

abbrev digit_data : ErrorEncodeData ℕ → Bytes
digit_data (msg m) = codes "\"" ++ m ++ codes "\""
digit_data (obj n) = digit_text n

abbrev request_text : Bytes
request_text = codes "{\"jsonrpc\":\"2.0\",\"method\":\"m\",\"params\":7,\"id\":\"ab\"}"

abbrev response_text : Bytes
response_text =
    codes
      "{\"jsonrpc\":\"2.0\",\"error\":{\"code\":-40997,\"message\":\"Server is too busy!\",\"data\":7},\"id\":\"ab\"}"

abbrev write_digits : Encode ℕ → Bytes × Bool
write_digits (Encode.encode_notify v m p) = ([], true)
write_digits (Encode.encode_request v m p id) = (request_text, true)
write_digits (Encode.encode_response v r e id) = (response_text, true)

abbrev borrowed_at : ℕ → Bytes → Borrowed
borrowed_at start text = record { start = start; text = text }

abbrev raw_request : RawData
raw_request = record {
  jsonrpc = borrowed_at 12 version;
  method = some (borrowed_at 27 (codes "m"));
  params = some (borrowed_at 39 (codes "7"));
  result = none;
  error = none;
  id = some (borrowed_at 47 (codes "ab"));
}

abbrev raw_response : RawData
raw_response = record {
  jsonrpc = borrowed_at 12 version;
  method = none;
  params = none;
  result = none;
  error = some (record { code = some (negsuc 40996); data_ = some (borrowed_at 79 (codes "7")) });
  id = some (borrowed_at 88 (codes "ab"));
}

abbrev parse_request : Bytes → Option RawData
parse_request frame = some raw_request

abbrev parse_response : Bytes → Option RawData
parse_response frame = some raw_response

reads_ab : req_id_from_str (codes "ab") ≡ Result.ok 171
unfolding req_id_from_str from_str_radix read_digits push_digit
reads_ab = refl

writes_ab : to_hex 171 ≡ codes "ab"
unfolding to_hex hex_digits
writes_ab = refl

request_borrows : IsBorrowedData request_text raw_request
request_borrows = record {
  method = record { inside = omega arith; ends = omega arith; same = refl };
  params = record { inside = omega arith; ends = omega arith; same = refl };
  result = tt;
  error = tt;
  id = record { inside = omega arith; ends = omega arith; same = refl };
}

response_borrows : IsBorrowedData response_text raw_response
response_borrows = record {
  method = tt;
  params = tt;
  result = tt;
  error = record { inside = omega arith; ends = omega arith; same = refl };
  id = record { inside = omega arith; ends = omega arith; same = refl };
}

ascii_ab : all_ascii (to_hex 171) ≡ true
unfolding to_hex hex_digits
ascii_ab = refl

raw_request_fields :
    Describes digit_text digit_data
      (Encode.encode_request version (codes "m") 7 (to_hex 171))
      raw_request
unfolding to_hex hex_digits
raw_request_fields = (refl, (_, refl, refl), (_, refl, refl), (_, refl, refl))

raw_response_fields :
    Describes digit_text digit_data
      (response_encode (to_hex 171) (response_result (EncodeResponsePayload.err busy 7)))
      raw_response
unfolding response_result error_to_errc to_u8 to_hex hex_digits
raw_response_fields = (refl, refl, refl, (_, refl, refl, (_, refl, refl)), (_, refl, refl))

decodes_request :
    decode_inbound all_ascii parse_request request_text
    ≡ returns (
        Result.ok (
          request
            (record { begin = 47; end = 49 })
            (record { begin = 27; end = 28 })
            (record { begin = 39; end = 40 })))
unfolding decode_inbound decode_raw frame_type
decodes_request = refl

decode_inbound_bounds_example :
    FrameInBounds
      (request
        (record { begin = 47; end = 49 })
        (record { begin = 27; end = 28 })
        (record { begin = 39; end = 40 }))
      request_text
    × RestInBounds
        (request
          (record { begin = 47; end = 49 })
          (record { begin = 27; end = 28 })
          (record { begin = 39; end = 40 }))
        request_text
decode_inbound_bounds_example =
    decode_inbound_bounds all_ascii parse_request request_text
      (request (record { begin = 47; end = 49 }) (record { begin = 27; end = 28 })
        (record { begin = 39; end = 40 }))
      (λ raw e.
        subst (IsBorrowedData request_text) (some-injective raw_request raw e) request_borrows)
      (omega arith) decodes_request

decode_inbound-request_message_example :
    (request_message write_digits all_ascii 171 (codes "m") 7 [] ≡ (request_text, Result.ok 171))
    × ((i m p : RangeType) × (decode_inbound all_ascii parse_request request_text
          ≡ returns (Result.ok (request i m p)))
        × HasRange i request_text (to_hex 171)
        × HasRange m request_text (codes "m")
        × HasRange p request_text (codes "7")
        × (restore_request_id all_ascii (slice i.begin i.end request_text) ≡ Result.ok 171))
decode_inbound-request_message_example =
    decode_inbound-request_message digit_text digit_data write_digits all_ascii parse_request 171
      (codes "m") 7 request_text raw_request (omega arith) (omega arith) refl (omega arith) refl
      ascii_ab refl request_borrows raw_request_fields

decode_inbound-response_message_example :
    (response_message write_digits all_ascii (to_hex 171) (EncodeResponsePayload.err busy 7) []
      ≡ (response_text, Result.ok tt))
    × ((payload : RangeType) × (decode_inbound all_ascii parse_response response_text
          ≡ returns (Result.ok (InboundFrameType.response 171 (some busy) payload)))
        × HasRange payload response_text (codes "7"))
unfolding response_result
decode_inbound-response_message_example =
    decode_inbound-response_message digit_text digit_data write_digits all_ascii parse_response 171
      (EncodeResponsePayload.err busy 7) response_text raw_response (omega arith) (omega arith) refl
      (omega arith) refl ascii_ab refl response_borrows raw_response_fields

-- The two frames are told apart by their lengths.
abbrev parse_both : Bytes → Option RawData
parse_both frame = if leb (length frame) 60 then some raw_request else some raw_response

abbrev settled : Outcome (Result InboundFrameType DecodeError) → Result InboundFrameType DecodeError
settled (returns r) = r
settled panics = Result.err DecodeError.parse_failed

abbrev json_codec : Codec ℕ
json_codec = record {
  codec_reusability_id = 3;
  encode_notify = λ method params buf. notify_message write_digits all_ascii method params buf;
  encode_request =
      λ id method params buf. request_message write_digits all_ascii id method params buf;
  encode_response = λ raw result buf. response_message write_digits all_ascii raw result buf;
  decode_inbound = λ scratch ib. (scratch, ib, settled (decode_inbound all_ascii parse_both ib));
  restore_request_id = λ raw. restore_request_id all_ascii raw;
}

json_codec-IsJsonRpc : IsJsonRpc digit_text digit_data write_digits all_ascii parse_both json_codec
json_codec-IsJsonRpc = record {
  requests = λ id method buf params. refl;
  responses = λ raw buf result. refl;
  decodes = λ frame r e. ap (λ o. ([], frame, settled o)) e;
}

request_Written :
    Written digit_text digit_data write_digits all_ascii parse_both
      (Encode.encode_request version (codes "m") 7 (to_hex 171))
request_Written = record {
  frame = request_text;
  raw = raw_request;
  written = refl;
  fits = omega arith;
  frame_utf8 = refl;
  parsed = refl;
  borrowed = request_borrows;
  describes = raw_request_fields;
}

response_Written :
    Written digit_text digit_data write_digits all_ascii parse_both
      (response_encode (to_hex 171) (response_result (EncodeResponsePayload.err busy 7)))
unfolding response_result
response_Written = record {
  frame = response_text;
  raw = raw_response;
  written = refl;
  fits = omega arith;
  frame_utf8 = refl;
  parsed = refl;
  borrowed = response_borrows;
  describes = raw_response_fields;
}

jsonrpc-Carries_example : Carries json_codec 171 (codes "m") 7 (EncodeResponsePayload.err busy 7)
jsonrpc-Carries_example =
    jsonrpc-Carries digit_text digit_data write_digits all_ascii parse_both json_codec 171
      (codes "m") 7 (EncodeResponsePayload.err busy 7) json_codec-IsJsonRpc (omega arith)
      (omega arith) ascii_ab request_Written response_Written
