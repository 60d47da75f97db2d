-- ===== src/ExtCodec/RawRpc/Decode.antt =====
-- src/ext_codec/rawrpc.rs, the decoder. `deserialize` stands for postcard's deserializer on a frame:
-- the head, whose byte strings are borrowed from the frame, and the rest behind it.
use rpc_it_rs.Base.{
  ℕ, ◌+◌, ◌%◌, ◌^◌, ◌&&◌, Option, none, some, Result, ok, err, Outcome, returns, panics, ◌>>=◌,
  length, ltb, leb, if◌then◌else◌, slice,
}
use rpc_it_rs.Defs.{Bytes, RangeType}
use rpc_it_rs.Codec.{DecodeError, parse_failed, InboundFrameType, ResponseError}
use rpc_it_rs.Codec.ErrorCodes.{from_u8}
use rpc_it_rs.ExtCodec.RawRpc.Encode.{
  Head, notify, request, response, response_err, restore_request_id,
}

-- A slice that is borrowed from the frame: where it starts in the frame, and its length.
pub record Slice : Type 0 where
  pub offset : ℕ
  pub len : ℕ

-- With the checks of the addition. The first assertion, that the slice does not start before the
-- frame, holds of every `Slice`.
unfoldable pub range_of : Bytes → Slice → Outcome RangeType
range_of base cursor =
    let offset = cursor.offset % 2 ^ 32 in
    let len = cursor.len % 2 ^ 32 in
    if ltb (offset + len) (2 ^ 32) && leb (offset + len) (length base % 2 ^ 32)
    then returns (record { begin = offset; end = offset + len })
    else panics

abbrev pub Decoded : Type 0
Decoded = Outcome (Result InboundFrameType DecodeError)

-- The two arms of a response: the id is restored before the range is taken.
unfoldable pub decode_response :
    Bytes → Result ℕ DecodeError → Option ResponseError → Slice → Decoded
decode_response frame (err e) errc payload = returns (err e)
decode_response frame (ok id) errc payload =
    range_of frame payload >>= λ p. returns (ok (InboundFrameType.response id errc p))

unfoldable pub bytes_of : Bytes → Slice → Bytes
bytes_of frame s = slice s.offset (s.offset + s.len) frame

unfoldable pub decode_head : Bytes → Head Slice → Slice → Decoded
decode_head frame (notify method) payload = range_of frame method >>= λ m.
    range_of frame payload >>= λ p. returns (ok (InboundFrameType.notify m p))
decode_head frame (request request_id method) payload = range_of frame request_id >>= λ i.
    range_of frame method >>= λ m.
    range_of frame payload >>= λ p. returns (ok (InboundFrameType.request i m p))
decode_head frame (response request_id) payload =
    decode_response frame (restore_request_id (bytes_of frame request_id)) none payload
decode_head frame (response_err request_id errc) payload =
    decode_response frame (restore_request_id (bytes_of frame request_id)) (some (from_u8 errc))
      payload

unfoldable pub decode_inbound : (Bytes → Option (Head Slice × Slice)) → Bytes → Decoded
decode_inbound deserialize frame = elim (deserialize frame) [
  | none ↦ returns (err parse_failed)
  | some (head, payload) ↦ decode_head frame head payload
]
