-- ===== src/ExtCodec/MsgpackRpc/Decode.antt =====
-- src/ext_codec/msgpack_rpc.rs, `decode_inbound` and `restore_request_id`. `Rmp` stands for the
-- readers of rmp: each gives what it read and the rest of the input, or an error.
use Prim.Native.String.{String}
use rpc_it_rs.Base.{
  ℕ, ◌-◌, ◌%◌, ◌^◌, ◌&&◌, Option, none, some, [], ◌∷◌, Result, ok, err, Outcome, returns, panics,
  ◌>>=◌, unwrap, length, drop, ◌==◌, leb, if◌then◌else◌,
}
use rpc_it_rs.Defs.{Bytes, RangeType}
use rpc_it_rs.Codec.{DecodeError, parse_failed, InboundFrameType, ResponseError, unknown}
use rpc_it_rs.Codec.ErrorCodes.{from_str}
use rpc_it_rs.ExtCodec.JsonRpc.RequestId.{nonzero_id}
use rpc_it_rs.ExtCodec.MsgpackRpc.Encode.{
  type_id_request, type_id_response, type_id_notification, retrieve_req_id,
}

abbrev pub Reader : Type 0 → Type 0
Reader A = Bytes → Option (A × Bytes)

pub record Rmp : Type 0 where
  pub read_array_len : Reader ℕ
  pub read_int_u8 : Reader ℕ
  pub read_int_u32 : Reader ℕ
  pub read_str_len : Reader ℕ
  pub read_nil : Reader (Unit {0})
  pub read_str_from_slice : Reader String
  pub read_u32 : Reader ℕ

-- What `decode_inbound` gives: its closure's errors all become `DecodeError::ParseFailed`.
abbrev pub Decoded : Type 0
Decoded = Outcome (Result InboundFrameType DecodeError)

abbrev pub fails : Decoded
fails = returns (err parse_failed)

abbrev pub decoded : InboundFrameType → Decoded
decoded t = returns (ok t)

-- `?` on a reader.
abbrev pub and_then : {A : Type 0} → Option (A × Bytes) → (A → Bytes → Decoded) → Decoded
and_then none f = fails
and_then (some (a, rest)) f = f a rest

abbrev pub last : Bytes → Option ℕ
last [] = none
last (b ∷ []) = some b
last (b ∷ c ∷ bs) = last (c ∷ bs)

-- `pos(base, cursor)`: the cursor is a rest of the base.
abbrev pub pos : Bytes → Bytes → ℕ
pos base cursor = (length base - length cursor) % 2 ^ 32

-- `frame.len() as u32`.
abbrev pub len_u32 : Bytes → ℕ
len_u32 frame = length frame % 2 ^ 32

-- `rd.advance(count)`, which panics behind the end.
abbrev pub advance : ℕ → Bytes → Outcome Bytes
advance count rd = if leb count (length rd) then returns (drop count rd) else panics

-- `if let Some(req_id_raw) = req_id_range`.
abbrev pub call_type : Option RangeType → RangeType → RangeType → InboundFrameType
call_type (some id) method params = InboundFrameType.request id method params
call_type none method params = InboundFrameType.notify method params

-- `frame.len() as u32 - 1`, which panics on an overflow.
abbrev pub before_last : Bytes → Outcome ℕ
before_last frame = if len_u32 frame == 0 then panics else returns (len_u32 frame - 1)

-- An error response with the payload that starts there.
abbrev pub error_response : Bytes → ℕ → ResponseError × Bytes → ℕ → InboundFrameType
error_response frame req_id (errc, start) payload_end =
    InboundFrameType.response req_id (some errc)
      (record { begin = pos frame start; end = payload_end })

-- `ResponseError::from_str(err_str)`, with the rest of the data.
abbrev pub read_code : Option (String × Bytes) → Option (ResponseError × Bytes)
read_code none = none
read_code (some (err_str, tail)) = elim (from_str err_str) [
  | err u ↦ none
  | ok errc ↦ some (errc, tail)
]

abbrev pub found_or : Bytes → Option (ResponseError × Bytes) → ResponseError × Bytes
found_or rd none = (unknown, rd)
found_or rd (some found) = found

module _ (rmp : Rmp) where
  -- What follows the id: the method and the parameters.
  unfoldable pub decode_call : Bytes → Option RangeType → Bytes → Decoded
  decode_call frame req_id_range rd = and_then (rmp.read_str_len rd) (λ method_len rd. do
    let method_start_pos = pos frame rd
    rd ← advance method_len rd
    decoded (
        call_type req_id_range (record { begin = method_start_pos; end = pos frame rd })
          (record { begin = pos frame rd; end = len_u32 frame })))

  -- The error slot as `(errc, obj)`: the code and where the object starts.
  abbrev pub errc_find : Bytes → Option (ResponseError × Bytes)
  errc_find rd = elim (rmp.read_array_len rd) [
    | none ↦ none
    | some (x, rd) ↦ if x == 2 then read_code (rmp.read_str_from_slice rd) else none
  ]

  -- The code, and where the error object starts: the whole slot where no code is found.
  abbrev pub error_part : Bytes → ResponseError × Bytes
  error_part rd = found_or rd (errc_find rd)

  -- A response whose error slot is not nil; its last byte is the nil of the result slot.
  unfoldable pub decode_error : Bytes → ℕ → Bytes → Decoded
  decode_error frame req_id rd = do
    marker ← unwrap (last frame)
    (if marker == 192
        then (before_last frame >>= λ payload_end.
            decoded (error_response frame req_id (error_part rd) payload_end))
        else fails)

  -- The error slot, by `dec::read_nil`, and the result slot.
  unfoldable pub after_id : Bytes → ℕ → Bytes → Decoded
  after_id frame req_id rd = elim (rmp.read_nil rd) [
    | some (u, rest) ↦ decoded (
        InboundFrameType.response req_id none
          (record { begin = pos frame rest; end = len_u32 frame }))
    | none ↦ decode_error frame req_id rd
  ]

  -- What follows the type of a response. An id of zero is an error.
  unfoldable pub decode_response : Bytes → Bytes → Decoded
  decode_response frame rd =
      and_then (rmp.read_int_u32 rd)
        (λ req_id rd. if req_id == 0 then fails else after_id frame req_id rd)

  -- What follows the type of a request.
  unfoldable pub decode_request : Bytes → Bytes → Decoded
  decode_request frame rd = and_then (rmp.read_int_u32 rd) (λ id rest.
      decode_call frame (some (record { begin = pos frame rd; end = pos frame rest })) rest)

  unfoldable pub decode_inbound : Bytes → Decoded
  decode_inbound frame = and_then (rmp.read_array_len frame) (λ array_size rd.
      and_then (rmp.read_int_u8 rd) (λ type_id rd.
        if (array_size == 4) && (type_id == type_id_request)
        then decode_request frame rd
        else if (array_size == 3) && (type_id == type_id_notification)
        then decode_call frame none rd
        else if (array_size == 4) && (type_id == type_id_response)
        then decode_response frame rd
        else fails))

  unfoldable pub restore_request_id : Bytes → Result ℕ DecodeError
  restore_request_id raw_id = nonzero_id (retrieve_req_id rmp.read_u32 raw_id)
