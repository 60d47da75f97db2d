-- ===== src/ExtCodec/JsonRpc/Decode.antt =====
-- src/ext_codec/jsonrpc.rs, `decode_inbound` and `restore_request_id`. `parse` stands for serde_json,
-- which borrows the texts and the raw values from the frame.
use rpc_it_rs.Base.{
  ℕ, ◌+◌, ◌%◌, ◌^◌, Bool, Option, none, some, Result, ok, err, Outcome, returns, ◌>>=◌, length,
  if◌then◌else◌,
}
use rpc_it_rs.Base.Int.{ℤ}
use rpc_it_rs.Base.Text.{same_text}
use rpc_it_rs.Defs.{Bytes, RangeType, empty_range}
use rpc_it_rs.Codec.{
  DecodeError, unsupported_protocol, non_utf8_input, parse_failed, InboundFrameType,
}
use rpc_it_rs.ExtCodec.JsonRpc.ErrorCodes.{errc_to_error, internal_error}
use rpc_it_rs.ExtCodec.JsonRpc.RequestId.{req_id_from_str}
use rpc_it_rs.ExtCodec.JsonRpc.Encode.{version}

-- A `&str` or `&RawValue` that is borrowed from the frame: where it starts, and its bytes.
pub record Borrowed : Type 0 where
  pub start : ℕ
  pub text : Bytes

pub record RawErrorObject : Type 0 where
  pub code : Option ℤ
  pub data_ : Option Borrowed

pub record RawData : Type 0 where
  pub jsonrpc : Borrowed
  pub method : Option Borrowed
  pub params : Option Borrowed
  pub result : Option Borrowed
  pub error : Option RawErrorObject
  pub id : Option Borrowed

-- `range_of`, with its two casts to `SizeType`.
abbrev pub range_of : Borrowed → RangeType
range_of s = record { begin = s.start % 2 ^ 32; end = (s.start + length s.text) % 2 ^ 32 }

-- The payload of an error: `data.map(..).unwrap_or_default()`.
abbrev pub data_range : Option Borrowed → RangeType
data_range none = empty_range
data_range (some x) = range_of x

-- `code.unwrap_or(errc::INTERNAL_ERROR)`.
abbrev pub error_code : RawErrorObject → ℤ
error_code e = elim e.code [ none ↦ internal_error | some c ↦ c ]

-- `request_id: req_id_from_str(id)?` in a response.
abbrev pub response_to :
    Borrowed → (ℕ → Outcome InboundFrameType) → Outcome (Result InboundFrameType DecodeError)
response_to id answer = elim (req_id_from_str id.text) [
  | err e ↦ returns (err e)
  | ok n ↦ answer n >>= λ t. returns (ok t)
]

abbrev pub error_frame : RawErrorObject → ℕ → Outcome InboundFrameType
error_frame e n = errc_to_error (error_code e) >>= λ errc.
    returns (InboundFrameType.response n (some errc) (data_range e.data_))

-- The arms of `match raw` behind the first two, on the id, the result and the error.
unfoldable pub reply_type :
    (id result : Option Borrowed) (error : Option RawErrorObject)
    → Outcome (Result InboundFrameType DecodeError)
reply_type none result error = returns (err parse_failed)
reply_type (some id) (some r) error =
    response_to id (λ n. returns (InboundFrameType.response n none (range_of r)))
reply_type (some id) none (some e) = response_to id (error_frame e)
reply_type (some id) none none = returns (err parse_failed)

-- `match raw`: the method, the parameters, the id, the result and the error.
unfoldable pub frame_type :
    (method params id result : Option Borrowed) (error : Option RawErrorObject)
    → Outcome (Result InboundFrameType DecodeError)
frame_type (some m) (some p) (some id) result error =
    returns (ok (InboundFrameType.request (range_of id) (range_of m) (range_of p)))
frame_type (some m) (some p) none result error =
    returns (ok (InboundFrameType.notify (range_of m) (range_of p)))
frame_type (some m) none id result error = reply_type id result error
frame_type none params id result error = reply_type id result error

-- What follows the parse.
unfoldable pub decode_raw : RawData → Outcome (Result InboundFrameType DecodeError)
decode_raw raw =
    if same_text raw.jsonrpc.text version
    then frame_type raw.method raw.params raw.id raw.result raw.error
    else returns (err unsupported_protocol)

module _ (is_utf8 : Bytes → Bool) (parse : Bytes → Option RawData) where
  unfoldable pub decode_inbound : Bytes → Outcome (Result InboundFrameType DecodeError)
  decode_inbound frame =
      if is_utf8 frame
      then elim (parse frame) [ none ↦ returns (err parse_failed) | some raw ↦ decode_raw raw ]
      else returns (err non_utf8_input)

unfoldable pub restore_request_id : (is_utf8 : Bytes → Bool) → Bytes → Result ℕ DecodeError
restore_request_id is_utf8 raw_id =
    if is_utf8 raw_id then req_id_from_str raw_id else err non_utf8_input
