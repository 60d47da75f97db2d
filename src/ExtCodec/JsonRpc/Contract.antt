-- ===== src/ExtCodec/JsonRpc/Contract.antt =====
-- The JSON-RPC codec keeps the contract that a connection relies on.
use mathlib.Core.Option.{some-injective}
use rpc_it_rs.Base.{
  ℕ, ◌^◌, ◌<◌, ◌≡◌, sym, subst, ap, ◌∙◌, Bool, true, Option, some, [], Result, ok, returns, length,
  slice,
}
use rpc_it_rs.Defs.{Bytes, IsU64}
use rpc_it_rs.Codec.{Codec, DecodeError, EncodeResponsePayload, InboundFrameType}
use rpc_it_rs.Rpc.Exchange.Contract.{Carries}
use rpc_it_rs.ExtCodec.JsonRpc.RequestId.{to_hex}
use rpc_it_rs.ExtCodec.JsonRpc.Encode.{
  Encode, ErrorEncodeData, version, response_result, response_encode, request_message,
  response_message,
}
use rpc_it_rs.ExtCodec.JsonRpc.Decode.{RawData, decode_inbound}
use rpc_it_rs.ExtCodec.JsonRpc.Bounds.{IsBorrowedData, decode_inbound_bounds}
use rpc_it_rs.ExtCodec.JsonRpc.Fields.{Describes}
use rpc_it_rs.ExtCodec.JsonRpc.Requests.{decode_inbound-request_message}
use rpc_it_rs.ExtCodec.JsonRpc.Responses.{answer_code, decode_inbound-response_message}

module _ {S : Type 0} (value_text : S → Bytes) (data_text : ErrorEncodeData S → Bytes)
    (serialize : Encode S → Bytes × Bool) (is_utf8 : Bytes → Bool)
    (parse : Bytes → Option RawData) where
  -- A `Codec` whose methods are those of the JSON-RPC codec.
  pub record IsJsonRpc (codec : Codec S) : Type 0 where
    pub requests :
        (id : ℕ) (method buf : Bytes) (params : S)
        → codec.encode_request id method params buf
          ≡ request_message serialize is_utf8 id method params buf
    pub responses :
        (raw buf : Bytes) (result : EncodeResponsePayload S)
        → codec.encode_response raw result buf ≡ response_message serialize is_utf8 raw result buf
    pub decodes :
        (frame : Bytes) (r : Result InboundFrameType DecodeError)
        → decode_inbound is_utf8 parse frame ≡ returns r
        → codec.decode_inbound [] frame ≡ ([], frame, r)

  -- serde_json writes `e` as a frame that is short enough for 32-bit ranges, and parses it to the
  -- fields that it wrote.
  pub record Written (e : Encode S) : Type 0 where
    pub frame : Bytes
    pub raw : RawData
    pub written : serialize e ≡ (frame, true)
    pub fits : length frame < 2 ^ 32
    pub frame_utf8 : is_utf8 frame ≡ true
    pub parsed : parse frame ≡ some raw
    pub borrowed : IsBorrowedData frame raw
    pub describes : Describes value_text data_text e raw

  -- A codec with the methods of JSON-RPC carries a request with a nonzero 64-bit id and its answer,
  -- where serde_json writes them as UTF-8 frames below 2 ^ 32 bytes, and parses them to the fields
  -- that it wrote, with their texts borrowed from behind the first byte.
  pub jsonrpc-Carries :
      (codec : Codec S) (id : ℕ) (method : Bytes) (params : S) (answer : EncodeResponsePayload S)
      → IsJsonRpc codec
      → 0 < id
      → IsU64 id
      → is_utf8 (to_hex id) ≡ true
      → Written (Encode.encode_request version method params (to_hex id))
      → Written (response_encode (to_hex id) (response_result answer))
      → Carries codec id method params answer
  jsonrpc-Carries codec id method params answer same positive fits h8 q a =
      let (encoded, (i, m, p, decoded, raw_id, named, _, _)) =
        decode_inbound-request_message value_text data_text serialize is_utf8 parse id method params
          q.frame q.raw positive fits q.written q.fits q.frame_utf8 h8 q.parsed q.borrowed
          q.describes in
      let (answered, (payload, answer_decoded, _)) =
        decode_inbound-response_message value_text data_text serialize is_utf8 parse id answer
          a.frame a.raw positive fits a.written a.fits a.frame_utf8 h8 a.parsed a.borrowed
          a.describes in
      record {
        request_frame = q.frame;
        raw_id = i;
        method_range = m;
        params_range = p;
        answer_frame = a.frame;
        errc = answer_code value_text data_text serialize is_utf8 parse answer;
        payload = payload;
        encoded = same.requests id method [] params ∙ encoded;
        decoded = same.decodes q.frame (ok (InboundFrameType.request i m p)) decoded;
        in_bounds =
            (decode_inbound_bounds is_utf8 parse q.frame (InboundFrameType.request i m p)
              (λ raw e.
                subst (IsBorrowedData q.frame) (some-injective _ _ (sym q.parsed ∙ e)) q.borrowed)
              q.fits decoded).0;
        same_method = named;
        answered =
            same.responses (slice i.begin i.end q.frame) [] answer
            ∙ ap (λ raw. response_message serialize is_utf8 raw answer []) raw_id
            ∙ answered;
        answer_decoded =
            same.decodes a.frame
              (ok (
                InboundFrameType.response id
                  (answer_code value_text data_text serialize is_utf8 parse answer) payload))
              answer_decoded;
      }
