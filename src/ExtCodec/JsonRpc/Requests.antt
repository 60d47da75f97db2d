-- ===== src/ExtCodec/JsonRpc/Requests.antt =====
-- A JSON-RPC request from its encoder to the other side's decoder.
use rpc_it_rs.Base.{
  ℕ, ◌^◌, ◌<◌, ◌≡◌, ap, ◌∙◌, Bool, true, Option, some, [], Result, returns, length, slice,
}
use rpc_it_rs.Defs.{Bytes, RangeType, IsU64}
use rpc_it_rs.Codec.{InboundFrameType}
use rpc_it_rs.ExtCodec.JsonRpc.RequestId.{to_hex, req_id_from_str-to_hex}
use rpc_it_rs.ExtCodec.JsonRpc.Encode.{Encode, ErrorEncodeData, version, request_message}
use rpc_it_rs.ExtCodec.JsonRpc.Decode.{
  RawData, range_of, frame_type, decode_inbound, restore_request_id,
}
use rpc_it_rs.ExtCodec.JsonRpc.Bounds.{IsBorrowedData}
use rpc_it_rs.ExtCodec.JsonRpc.Fields.{
  Describes, HasRange, range-HasText, decode_raw-version, decode_inbound-parsed,
}

module _ {S : Type 0} (value_text : S → Bytes) (data_text : ErrorEncodeData S → Bytes)
    (serialize : Encode S → Bytes × Bool) (is_utf8 : Bytes → Bool)
    (parse : Bytes → Option RawData) where
  restore_request_id-to_hex :
      (id : ℕ)
      → 0 < id
      → IsU64 id
      → is_utf8 (to_hex id) ≡ true
      → restore_request_id is_utf8 (to_hex id) ≡ Result.ok id
  unfolding restore_request_id
  restore_request_id-to_hex id positive fits h8 = rw h8 (req_id_from_str-to_hex id positive fits).0

  -- A request that serde_json writes as a frame below 2 ^ 32 bytes, and parses to the fields it
  -- wrote: the request id stays as it was given, the other side decodes a request whose ranges are
  -- the id in hexadecimal, the method and the parameters, and the raw id is restored as the id.
  pub decode_inbound-request_message :
      (id : ℕ) (method : Bytes) (params : S) (frame : Bytes) (raw : RawData)
      → 0 < id
      → IsU64 id
      → serialize (Encode.encode_request version method params (to_hex id)) ≡ (frame, true)
      → length frame < 2 ^ 32
      → is_utf8 frame ≡ true
      → is_utf8 (to_hex id) ≡ true
      → parse frame ≡ some raw
      → IsBorrowedData frame raw
      → Describes value_text data_text (Encode.encode_request version method params (to_hex id)) raw
      → (request_message serialize is_utf8 id method params [] ≡ (frame, Result.ok id))
        × ((i m p : RangeType) × (decode_inbound is_utf8 parse frame
              ≡ returns (Result.ok (InboundFrameType.request i m p)))
            × HasRange i frame (to_hex id)
            × HasRange m frame method
            × HasRange p frame (value_text params)
            × (restore_request_id is_utf8 (slice i.begin i.end frame) ≡ Result.ok id))
  unfolding request_message frame_type
  decode_inbound-request_message id method params frame raw positive fits written small u8 h8 parsed
        b (v, m, p, i) =
      let (si, ei, ti) = range-HasText frame raw.id (to_hex id) small b.id i in
      let (sm, em, tm) = range-HasText frame raw.method method small b.method m in
      let (sp, ep, tp) = range-HasText frame raw.params (value_text params) small b.params p in
      (
        rw written,
        (
          range_of si,
          range_of sm,
          range_of sp,
          decode_inbound-parsed is_utf8 parse frame raw u8 parsed
              ∙ decode_raw-version raw v
              ∙ rw (em, ep, ei, frame_type),
          ti,
          tm,
          tp,
          ap (restore_request_id is_utf8) ti ∙ restore_request_id-to_hex id positive fits h8,
        ),
      )
