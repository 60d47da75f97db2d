-- ===== src/ExtCodec/RawRpc/Contract.antt =====
-- The rawrpc codec keeps the contract that a connection relies on.
use rpc_it_rs.Base.{
  Ensures, Ensures-returns, ℕ, ◌^◌, ◌<◌, ◌≡◌, refl, sym, subst, ◌∙◌, Option, some, [], ◌++◌, Result,
  ok, returns, length, slice,
}
use rpc_it_rs.Defs.{Bytes, IsU64}
use rpc_it_rs.Codec.{Codec, DecodeError, EncodeResponsePayload, InboundFrameType}
use rpc_it_rs.Codec.RequestIdBytes.{as_bytes}
use rpc_it_rs.Rpc.Exchange.Contract.{Carries}
use rpc_it_rs.ExtCodec.MsgpackRpc.Responses.{answer_code}
use rpc_it_rs.ExtCodec.RawRpc.Encode.{
  Head, Item, head, value, restore_request_id, response_items, encode_request, encode_response,
}
use rpc_it_rs.ExtCodec.RawRpc.Decode.{Slice, decode_inbound}
use rpc_it_rs.ExtCodec.RawRpc.Reads.{Reads, restore_request_id-as_bytes}
use rpc_it_rs.ExtCodec.RawRpc.Bounds.{Borrowing, DecodesWithin, decode_inbound-DecodesWithin}
use rpc_it_rs.ExtCodec.RawRpc.RoundTrip.{request_items_lem, decode_inbound-encode_answer}

-- A `Codec` whose methods are those of the rawrpc codec.
pub record IsRawRpc {S : Type 0} (codec : Codec S) (postcard : Item S → Option Bytes)
    (deserialize : Bytes → Option (Head Slice × Slice)) : Type 0 where
  pub requests :
      (id : ℕ) (method buf : Bytes) (params : S)
      → codec.encode_request id method params buf ≡ encode_request postcard id method params buf
  pub responses :
      (raw buf : Bytes) (result : EncodeResponsePayload S)
      → codec.encode_response raw result buf ≡ encode_response postcard raw result buf
  pub decodes :
      (frame : Bytes) (r : Result InboundFrameType DecodeError)
      → decode_inbound deserialize frame ≡ returns r
      → codec.decode_inbound [] frame ≡ ([], frame, r)

module _ {S : Type 0} (postcard : Item S → Option Bytes)
    (deserialize : Bytes → Option (Head Slice × Slice)) where
  -- What postcard writes for a request and its answer, short enough for 32-bit ranges.
  pub record Written (id : ℕ) (method : Bytes) (params : S) (answer : EncodeResponsePayload S)
      : Type 0 where
    pub request_head : Bytes
    pub request_value : Bytes
    pub answer_head : Bytes
    pub answer_value : Bytes
    pub request_head_written :
        postcard (head (Head.request (as_bytes id) method)) ≡ some request_head
    pub request_value_written : postcard (value params) ≡ some request_value
    pub answer_head_written : postcard (response_items (as_bytes id) answer).0 ≡ some answer_head
    pub answer_value_written : postcard (response_items (as_bytes id) answer).1 ≡ some answer_value
    pub request_fits : length (request_head ++ request_value) < 2 ^ 32
    pub answer_fits : length (answer_head ++ answer_value) < 2 ^ 32

  -- A raw id that is restored as an id is answered like the bytes of that id.
  encode_response-raw :
      (raw : Bytes) (id : ℕ) (answer : EncodeResponsePayload S)
      → 0 < id
      → IsU64 id
      → restore_request_id raw ≡ ok id
      → encode_response postcard raw answer [] ≡ encode_response postcard (as_bytes id) answer []
  unfolding encode_response
  encode_response-raw raw id answer positive fits restored =
      rw (restored, restore_request_id-as_bytes id positive fits, encode_response) refl

  -- A codec with the methods of rawrpc carries a request with a nonzero 64-bit id and its answer, where
  -- postcard writes their items as frames below 2 ^ 32 bytes, reads back the heads that it wrote, and
  -- borrows from behind the first byte of a frame.
  pub rawrpc-Carries :
      (codec : Codec S) (id : ℕ) (method : Bytes) (params : S) (answer : EncodeResponsePayload S)
      → IsRawRpc codec postcard deserialize
      → Reads postcard deserialize
      → Borrowing deserialize
      → 0 < id
      → IsU64 id
      → Written id method params answer
      → Carries codec id method params answer
  rawrpc-Carries codec id method params answer same reads borrowing positive fits w =
      let frame = w.request_head ++ w.request_value in
      let (encoded, (i, m, p, decoded, restored, named, rest)) =
        request_items_lem postcard deserialize reads id method params w.request_head w.request_value
          positive fits w.request_head_written w.request_value_written w.request_fits in
      let (answered, (payload, answer_decoded, text)) =
        decode_inbound-encode_answer postcard deserialize reads id answer w.answer_head
          w.answer_value positive fits w.answer_head_written w.answer_value_written w.answer_fits in
      let (r, e, bounds) =
        decode_inbound-DecodesWithin deserialize frame borrowing w.request_fits in
      record {
        request_frame = frame;
        raw_id = i;
        method_range = m;
        params_range = p;
        answer_frame = w.answer_head ++ w.answer_value;
        errc = answer_code answer;
        payload = payload;
        encoded = same.requests id method [] params ∙ encoded;
        decoded = same.decodes frame (ok (InboundFrameType.request i m p)) decoded;
        in_bounds =
            (Ensures-returns (DecodesWithin frame) (decode_inbound deserialize frame)
              (ok (InboundFrameType.request i m p))
              (subst (Ensures (DecodesWithin frame)) (sym e) bounds) decoded).0;
        same_method = named;
        answered =
            same.responses (slice i.begin i.end frame) [] answer
            ∙ encode_response-raw (slice i.begin i.end frame) id answer positive fits restored
            ∙ answered;
        answer_decoded =
            same.decodes (w.answer_head ++ w.answer_value)
              (ok (InboundFrameType.response id (answer_code answer) payload)) answer_decoded;
      }
