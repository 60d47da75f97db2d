-- ===== src/ExtCodec/RawRpc/RoundTrip.antt =====
-- The rawrpc codec from the encoder of one side to the decoder of the other.
use rpc_it_rs.Base.{
  ℕ, ◌^◌, ◌<◌, ◌≡◌, refl, ap, ◌∙◌, Option, none, some, [], ◌++◌, ok, returns, length, slice,
}
use rpc_it_rs.Defs.{Bytes, RangeType, IsU64}
use rpc_it_rs.Codec.{EncodeResponsePayload, InboundFrameType, ResponseError}
use rpc_it_rs.Codec.ErrorCodes.{to_u8, u8_round_trip}
use rpc_it_rs.Codec.RequestIdBytes.{as_bytes}
use rpc_it_rs.ExtCodec.MsgpackRpc.Format.{HasRange}
use rpc_it_rs.ExtCodec.MsgpackRpc.Responses.{answer_code}
use rpc_it_rs.ExtCodec.RawRpc.Encode.{
  Head, Item, head, value, restore_request_id, response_items, serialize, serialize_pair,
  encode_notify, encode_request, encode_response,
}
use rpc_it_rs.ExtCodec.RawRpc.Decode.{Slice, bytes_of, decode_response, decode_head, decode_inbound}
use rpc_it_rs.ExtCodec.RawRpc.Reads.{
  behind, Reads, whole_range, range_of-fits, behind-Borrows, restore_request_id-as_bytes,
}

module _ {S : Type 0} (postcard : Item S → Option Bytes)
    (deserialize : Bytes → Option (Head Slice × Slice)) (reads : Reads postcard deserialize) where
  serialize_pair-written :
      (a b : Item S) (w v : Bytes)
      → postcard a ≡ some w
      → postcard b ≡ some v
      → serialize_pair postcard (a, b) [] ≡ (w ++ v, ok tt)
  unfolding serialize_pair serialize
  serialize_pair-written a b w v ea eb =
      rw (ea, serialize_pair, serialize) (rw (eb, serialize) refl)

  pub request_items_lem :
      (id : ℕ) (method : Bytes) (params : S) (w v : Bytes)
      → 0 < id
      → IsU64 id
      → postcard (head (Head.request (as_bytes id) method)) ≡ some w
      → postcard (value params) ≡ some v
      → length (w ++ v) < 2 ^ 32
      → (encode_request postcard id method params [] ≡ (w ++ v, ok id))
        × ((i m p : RangeType) × (decode_inbound deserialize (w ++ v)
              ≡ returns (ok (InboundFrameType.request i m p)))
            × (restore_request_id (slice i.begin i.end (w ++ v)) ≡ ok id)
            × HasRange m (w ++ v) method
            × HasRange p (w ++ v) v)
  unfolding encode_request decode_inbound decode_head
  request_items_lem id method params w v positive fits ew ev sw =
      let (i, m, e, (bi, ti), (bm, tm)) = reads.request (as_bytes id) method w v ew in
      let (bp, tp) = behind-Borrows w v in
      (
        rw (serialize_pair-written _ _ w v ew ev) refl,
        (
          whole_range i,
          whole_range m,
          whole_range (behind w v),
          rw
              (
                e,
                decode_inbound,
                decode_head,
                range_of-fits (w ++ v) i sw bi,
                range_of-fits (w ++ v) m sw bm,
                range_of-fits (w ++ v) (behind w v) sw bp,
              )
              refl,
          ap restore_request_id ti ∙ restore_request_id-as_bytes id positive fits,
          tm,
          tp,
        ),
      )

  -- A notification and a request that postcard writes: the other side decodes them as such, with the
  -- ranges of the id, the method and the parameters; the raw id is restored as the id that was sent.
  pub decode_inbound-encode_items :
      (id : ℕ) (method : Bytes) (params : S) (n w v : Bytes)
      → 0 < id
      → IsU64 id
      → postcard (head (Head.notify method)) ≡ some n
      → postcard (head (Head.request (as_bytes id) method)) ≡ some w
      → postcard (value params) ≡ some v
      → length (n ++ v) < 2 ^ 32
      → length (w ++ v) < 2 ^ 32
      → (encode_notify postcard method params [] ≡ (n ++ v, ok tt))
        × ((m p : RangeType) × (decode_inbound deserialize (n ++ v)
              ≡ returns (ok (InboundFrameType.notify m p)))
            × HasRange m (n ++ v) method
            × HasRange p (n ++ v) v)
        × (encode_request postcard id method params [] ≡ (w ++ v, ok id))
        × ((i m p : RangeType) × (decode_inbound deserialize (w ++ v)
              ≡ returns (ok (InboundFrameType.request i m p)))
            × (restore_request_id (slice i.begin i.end (w ++ v)) ≡ ok id)
            × HasRange m (w ++ v) method
            × HasRange p (w ++ v) v)
  unfolding encode_notify decode_inbound decode_head
  decode_inbound-encode_items id method params n w v positive fits en ew ev sn sw =
      let (m, e, (bm, tm)) = reads.notify method n v en in
      let (bp, tp) = behind-Borrows n v in
      let (encoded, decoded) = request_items_lem id method params w v positive fits ew ev sw in
      (
        serialize_pair-written _ _ n v en ev,
        (
          whole_range m,
          whole_range (behind n v),
          rw
              (
                e,
                decode_inbound,
                decode_head,
                range_of-fits (n ++ v) m sn bm,
                range_of-fits (n ++ v) (behind n v) sn bp,
              )
              refl,
          tm,
          tp,
        ),
        encoded,
        decoded,
      )

  abbrev Answered : ℕ → Option ResponseError → Bytes → Bytes → Type 0
  Answered id errc w v =
      (p : RangeType) × (decode_inbound deserialize (w ++ v)
        ≡ returns (ok (InboundFrameType.response id errc p)))
      × HasRange p (w ++ v) v

  -- A response without an error code.
  response-Answered :
      (id : ℕ) (w v : Bytes)
      → 0 < id
      → IsU64 id
      → length (w ++ v) < 2 ^ 32
      → postcard (head (Head.response (as_bytes id))) ≡ some w
      → Answered id none w v
  unfolding decode_inbound decode_head decode_response bytes_of
  response-Answered id w v positive fits small ew =
      let (i, e, (bi, ti)) = reads.response (as_bytes id) w v ew in
      let (bp, tp) = behind-Borrows w v in
      (
        whole_range (behind w v),
        rw
            (
              e,
              decode_inbound,
              decode_head,
              bytes_of,
              ti,
              restore_request_id-as_bytes id positive fits,
              decode_response,
              range_of-fits (w ++ v) (behind w v) small bp,
            )
            refl,
        tp,
      )

  response_err-Answered :
      (id : ℕ) (ec : ResponseError) (w v : Bytes)
      → 0 < id
      → IsU64 id
      → length (w ++ v) < 2 ^ 32
      → postcard (head (Head.response_err (as_bytes id) (to_u8 ec))) ≡ some w
      → Answered id (some ec) w v
  unfolding decode_inbound decode_head decode_response bytes_of
  response_err-Answered id ec w v positive fits small ew =
      let (i, e, (bi, ti)) = reads.response_err (as_bytes id) w v (to_u8 ec) ew in
      let (bp, tp) = behind-Borrows w v in
      (
        whole_range (behind w v),
        rw
            (
              e,
              decode_inbound,
              decode_head,
              bytes_of,
              ti,
              restore_request_id-as_bytes id positive fits,
              (u8_round_trip ec 0).0,
              decode_response,
              range_of-fits (w ++ v) (behind w v) small bp,
            )
            refl,
        tp,
      )

  items-Answered :
      (id : ℕ) (result : EncodeResponsePayload S) (w v : Bytes)
      → 0 < id
      → IsU64 id
      → length (w ++ v) < 2 ^ 32
      → postcard (response_items (as_bytes id) result).0 ≡ some w
      → Answered id (answer_code result) w v
  unfolding response_items
  items-Answered id (EncodeResponsePayload.ok r) w v p f s e = response-Answered id w v p f s e
  items-Answered id (EncodeResponsePayload.err_code_only ec) w v p f s e =
      response_err-Answered id ec w v p f s e
  items-Answered id (EncodeResponsePayload.err_object_only o) w v p f s e =
      response_err-Answered id ResponseError.unknown w v p f s e
  items-Answered id (EncodeResponsePayload.err ec o) w v p f s e =
      response_err-Answered id ec w v p f s e

  -- A response to the raw id of a request, whose head and payload postcard writes: the caller
  -- decodes a response to that id, without an error code for a result, with the error code that was
  -- sent, or with `Unknown` for an error object alone; the payload's range is the second item.
  pub decode_inbound-encode_answer :
      (id : ℕ) (result : EncodeResponsePayload S) (w v : Bytes)
      → 0 < id
      → IsU64 id
      → postcard (response_items (as_bytes id) result).0 ≡ some w
      → postcard (response_items (as_bytes id) result).1 ≡ some v
      → length (w ++ v) < 2 ^ 32
      → (encode_response postcard (as_bytes id) result [] ≡ (w ++ v, ok tt))
        × ((p : RangeType) × (decode_inbound deserialize (w ++ v)
              ≡ returns (ok (InboundFrameType.response id (answer_code result) p)))
            × HasRange p (w ++ v) v)
  unfolding encode_response
  decode_inbound-encode_answer id result w v positive fits ew ev small = (
    rw (restore_request_id-as_bytes id positive fits, encode_response)
        (serialize_pair-written _ _ w v ew ev),
    items-Answered id result w v positive fits small ew,
  )
