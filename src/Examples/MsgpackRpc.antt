-- ===== src/Examples/MsgpackRpc.antt =====
-- The theorems on the MessagePack-RPC codec at concrete frames.
use rpc_it_rs.Base.{
  ℕ, ◌%◌, ◌^◌, ◌≡◌, refl, Bool, true, some, [], ◌∷◌, ◌++◌, ok, err, returns, panics, slice, ltb,
  if◌then◌else◌, arith,
}
use rpc_it_rs.Base.Text.{codes}
use rpc_it_rs.Defs.{Bytes, RangeType}
use rpc_it_rs.Codec.{DecodeError, unknown, EncodeResponsePayload, InboundFrameType}
use rpc_it_rs.ExtCodec.MsgpackRpc.Encode.{Message, fold_req_id, encode_request}
use rpc_it_rs.ExtCodec.MsgpackRpc.Decode.{
  decode_inbound, decode_call, decode_response, after_id, decode_error, restore_request_id,
}
use rpc_it_rs.ExtCodec.MsgpackRpc.Bounds.{DecodesTo, decode_inbound-DecodesTo}
use rpc_it_rs.ExtCodec.MsgpackRpc.Format.{HasRange}
use rpc_it_rs.ExtCodec.MsgpackRpc.Requests.{request_bytes, decode_inbound-encode_request}
use rpc_it_rs.ExtCodec.MsgpackRpc.Responses.{answer_bytes}
use rpc_it_rs.Examples.Rmp.{rmp, format, rmp-Reads, rmp-IsRmp}

-- The length of this method is given as nine.
abbrev long_method : Bytes
long_method = 147 ∷ 2 ∷ 169 ∷ 65 ∷ []

decode_inbound-DecodesTo_example : DecodesTo rmp long_method (decode_inbound rmp long_method)
decode_inbound-DecodesTo_example = decode_inbound-DecodesTo rmp rmp-IsRmp long_method (omega arith)

long_method_panics : decode_inbound rmp long_method ≡ panics
unfolding decode_inbound decode_call
long_method_panics = refl

-- An id that ends in the byte of nil, with nothing behind it: the payload starts behind its end.
reversed_payload :
    decode_inbound rmp (148 ∷ 1 ∷ 204 ∷ 192 ∷ [])
    ≡ returns (ok (InboundFrameType.response 192 (some unknown) (record { begin = 4; end = 3 })))
unfolding decode_inbound decode_response after_id decode_error
reversed_payload = refl

-- A payload is a digit.
abbrev digit : ℕ → Bytes
digit n = n % 10 ∷ []

abbrev request_frame : Bytes
request_frame = request_bytes format digit 70000 (codes "add") 7

abbrev serialize : Message ℕ → Bytes × Bool
serialize (Message.notification t m p) = ([], true)
serialize (Message.request t id m p) = (request_frame, true)
serialize (Message.response t id e r) = ([], true)

decode_inbound-encode_request_example :
    (encode_request serialize rmp.read_u32 70000 (codes "add") 7 []
      ≡ (request_frame, ok (fold_req_id 70000)))
    × ((i m p : RangeType) × (decode_inbound rmp request_frame
          ≡ returns (ok (InboundFrameType.request i m p)))
        × HasRange i request_frame (format.uint (fold_req_id 70000))
        × HasRange m request_frame (codes "add")
        × HasRange p request_frame (digit 7)
        × (restore_request_id rmp (slice i.begin i.end request_frame) ≡ (
            if ltb (fold_req_id 70000) (2 ^ 16)
            then err DecodeError.invalid_format
            else ok (fold_req_id 70000))))
unfolding fold_req_id
decode_inbound-encode_request_example =
    decode_inbound-encode_request rmp format digit serialize rmp-Reads 70000 (codes "add") 7
      request_frame (omega arith) (omega arith) refl refl (omega arith)

abbrev object_frame : Bytes
object_frame =
    format.array_head 4
    ++ (format.uint 1
        ++ (format.uint 70000
            ++ answer_bytes format digit (EncodeResponsePayload.err_object_only 7)))

abbrev serialize_object : Message ℕ → Bytes × Bool
serialize_object m = (object_frame, true)
