-- ===== src/Examples/RawRpc.antt =====
-- The theorems on the rawrpc codec at concrete frames.
use rpc_it_rs.Base.{◌≡◌, refl, some, [], ◌∷◌, ◌++◌, ok, returns, slice, arith}
use rpc_it_rs.Base.Text.{codes}
use rpc_it_rs.Defs.{Bytes, RangeType}
use rpc_it_rs.Codec.{EncodeResponsePayload, InboundFrameType, busy}
use rpc_it_rs.Codec.ErrorCodes.{to_u8}
use rpc_it_rs.Codec.RequestIdBytes.{as_bytes}
use rpc_it_rs.ExtCodec.MsgpackRpc.Format.{HasRange}
use rpc_it_rs.ExtCodec.RawRpc.Encode.{
  notify, request, response_err, restore_request_id, response_items, encode_notify, encode_request,
  encode_response,
}
use rpc_it_rs.ExtCodec.RawRpc.Decode.{decode_inbound}
use rpc_it_rs.ExtCodec.RawRpc.RoundTrip.{decode_inbound-encode_items, decode_inbound-encode_answer}
use rpc_it_rs.Examples.Postcard.{head_bytes, postcard, deserialize}
use rpc_it_rs.Examples.PostcardReads.{reads}

abbrev notification_head : Bytes
notification_head = head_bytes (notify (codes "add"))

abbrev request_head : Bytes
request_head = head_bytes (request (as_bytes 1000) (codes "add"))

abbrev answer_head : Bytes
answer_head = head_bytes (response_err (as_bytes 1000) 3)

decode_inbound-encode_items_example :
    (encode_notify postcard (codes "add") 7 [] ≡ (notification_head ++ (7 ∷ []), ok tt))
    × ((m p : RangeType) × (decode_inbound deserialize (notification_head ++ (7 ∷ []))
          ≡ returns (ok (InboundFrameType.notify m p)))
        × HasRange m (notification_head ++ (7 ∷ [])) (codes "add")
        × HasRange p (notification_head ++ (7 ∷ [])) (7 ∷ []))
    × (encode_request postcard 1000 (codes "add") 7 [] ≡ (request_head ++ (7 ∷ []), ok 1000))
    × ((i m p : RangeType) × (decode_inbound deserialize (request_head ++ (7 ∷ []))
          ≡ returns (ok (InboundFrameType.request i m p)))
        × (restore_request_id (slice i.begin i.end (request_head ++ (7 ∷ []))) ≡ ok 1000)
        × HasRange m (request_head ++ (7 ∷ [])) (codes "add")
        × HasRange p (request_head ++ (7 ∷ [])) (7 ∷ []))
unfolding as_bytes
decode_inbound-encode_items_example =
    decode_inbound-encode_items postcard deserialize reads 1000 (codes "add") 7 notification_head
      request_head (7 ∷ []) (omega arith) (omega arith) refl refl refl (omega arith) (omega arith)

decode_inbound-encode_answer_example :
    (encode_response postcard (as_bytes 1000) (EncodeResponsePayload.err busy 7) []
      ≡ (answer_head ++ (7 ∷ []), ok tt))
    × ((p : RangeType) × (decode_inbound deserialize (answer_head ++ (7 ∷ []))
          ≡ returns (ok (InboundFrameType.response 1000 (some busy) p)))
        × HasRange p (answer_head ++ (7 ∷ [])) (7 ∷ []))
unfolding response_items to_u8 as_bytes
decode_inbound-encode_answer_example =
    decode_inbound-encode_answer postcard deserialize reads 1000 (EncodeResponsePayload.err busy 7)
      answer_head (7 ∷ []) (omega arith) (omega arith) refl refl (omega arith)
