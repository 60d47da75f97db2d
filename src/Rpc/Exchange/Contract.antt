-- ===== src/Rpc/Exchange/Contract.antt =====
-- What the rest of a connection relies on in a codec.
use rpc_it_rs.Base.{ℕ, ◌≡◌, Option, [], ok, slice}
use rpc_it_rs.Defs.{Bytes, RangeType}
use rpc_it_rs.Codec.{Codec, EncodeResponsePayload, ResponseError, request, response}
use rpc_it_rs.Rpc.Receiver.Frame.{FrameInBounds}

-- What the codec makes of a request with an id, and of the answer to it: the contract that the rest
-- of a connection relies on.
pub record Carries {S : Type 0} (codec : Codec S) (id : ℕ) (method : Bytes) (params : S)
    (answer : EncodeResponsePayload S) : Type 0 where
  pub request_frame : Bytes
  pub raw_id : RangeType
  pub method_range : RangeType
  pub params_range : RangeType
  pub answer_frame : Bytes
  pub errc : Option ResponseError
  pub payload : RangeType
  pub encoded : codec.encode_request id method params [] ≡ (request_frame, ok id)
  pub decoded :
      codec.decode_inbound [] request_frame
      ≡ ([], request_frame, ok (request raw_id method_range params_range))
  pub in_bounds : FrameInBounds (request raw_id method_range params_range) request_frame
  pub same_method : slice method_range.begin method_range.end request_frame ≡ method
  pub answered :
      codec.encode_response (slice raw_id.begin raw_id.end request_frame) answer []
      ≡ (answer_frame, ok tt)
  pub answer_decoded :
      codec.decode_inbound [] answer_frame ≡ ([], answer_frame, ok (response id errc payload))
