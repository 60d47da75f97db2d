-- ===== src/Examples/Exchange.antt =====
-- A call over a connection whose codec is that of src/ext_codec/rawrpc.rs.
use rpc_it_rs.Base.{
  ℕ, ◌≡◌, refl, ap, true, false, none, some, [], ◌∷◌, Result, err, Outcome, returns, panics, arith,
}
use rpc_it_rs.Base.Text.{codes}
use rpc_it_rs.Codec.{Codec, DecodeError, InboundFrameType, busy}
use rpc_it_rs.Codec.ErrorCodes.{to_u8}
use rpc_it_rs.Codec.RequestIdBytes.{as_bytes}
use rpc_it_rs.Waker.{option_waker, option_waker-IsAtomicWaker}
use rpc_it_rs.Channel.{Unbounded, unbounded, unbounded-IsChannel}
use rpc_it_rs.Rpc.Types.{WriterDirective}
use rpc_it_rs.Rpc.ReqRep.{new_context}
use rpc_it_rs.Rpc.Inbound.{ResponsePayload, encoded_payload}
use rpc_it_rs.Rpc.Exchange.Contract.{Carries}
use rpc_it_rs.Rpc.Exchange.Call.{Exchanged, call_is_answered}
use rpc_it_rs.ExtCodec.RawRpc.Encode.{Head, Item, response_items, restore_request_id}
use rpc_it_rs.ExtCodec.RawRpc.Encode
use rpc_it_rs.ExtCodec.RawRpc.Decode.{decode_inbound}
use rpc_it_rs.ExtCodec.RawRpc.Bounds.{DecodesWithin, decode_inbound-DecodesWithin}
use rpc_it_rs.ExtCodec.RawRpc.Contract.{IsRawRpc, Written, rawrpc-Carries}
use rpc_it_rs.Examples.Postcard.{head_bytes, postcard, deserialize, deserialize-Borrowing}
use rpc_it_rs.Examples.PostcardReads.{reads}

abbrev settled : Outcome (Result InboundFrameType DecodeError) → Result InboundFrameType DecodeError
settled (returns r) = r
settled panics = err DecodeError.invalid_format

abbrev raw_codec : Codec ℕ
raw_codec = record {
  codec_reusability_id = 2;
  encode_notify = λ method params buf. Encode.encode_notify postcard method params buf;
  encode_request = λ id method params buf. Encode.encode_request postcard id method params buf;
  encode_response = λ raw result buf. Encode.encode_response postcard raw result buf;
  decode_inbound = λ scratch ib. (scratch, ib, settled (decode_inbound deserialize ib));
  restore_request_id = λ raw. restore_request_id raw;
}

raw_codec-IsRawRpc : IsRawRpc raw_codec postcard deserialize
raw_codec-IsRawRpc = record {
  requests = λ id method buf params. refl;
  responses = λ raw buf result. refl;
  decodes = λ frame r e. ap (λ o. ([], frame, settled o)) e;
}

abbrev reply : ResponsePayload ℕ
reply = err (busy, some 7)

reply-Written : Written postcard deserialize 1000 (codes "add") 7 (encoded_payload reply)
unfolding as_bytes response_items to_u8 encoded_payload
reply-Written = record {
  request_head = head_bytes (Head.request (as_bytes 1000) (codes "add"));
  request_value = 7 ∷ [];
  answer_head = head_bytes (Head.response_err (as_bytes 1000) 3);
  answer_value = 7 ∷ [];
  request_head_written = refl;
  request_value_written = refl;
  answer_head_written = refl;
  answer_value_written = refl;
  request_fits = omega arith;
  answer_fits = omega arith;
}

reply-Carries : Carries raw_codec 1000 (codes "add") 7 (encoded_payload reply)
reply-Carries =
    rawrpc-Carries postcard deserialize raw_codec 1000 (codes "add") 7 (encoded_payload reply)
      raw_codec-IsRawRpc reads deserialize-Borrowing (omega arith) (omega arith) reply-Written

rawrpc-Carries_example : Carries raw_codec 1000 (codes "add") 7 (encoded_payload reply)
rawrpc-Carries_example =
    rawrpc-Carries postcard deserialize raw_codec 1000 (codes "add") 7 (encoded_payload reply)
      raw_codec-IsRawRpc reads deserialize-Borrowing (omega arith) (omega arith) reply-Written

decode_inbound-DecodesWithin_example :
    (r : Result InboundFrameType DecodeError) × (decode_inbound deserialize (0 ∷ 1 ∷ 65 ∷ 7 ∷ [])
      ≡ returns r)
    × DecodesWithin (0 ∷ 1 ∷ 65 ∷ 7 ∷ []) r
decode_inbound-DecodesWithin_example =
    decode_inbound-DecodesWithin deserialize (0 ∷ 1 ∷ 65 ∷ 7 ∷ []) deserialize-Borrowing
      (omega arith)

abbrev idle_channel : Unbounded WriterDirective
idle_channel = record { messages = []; is_closed = false }

call_is_answered_example :
    Exchanged option_waker raw_codec unbounded
      (Unit {0})
      (λ _. true)
      (λ _. 1000)
      idle_channel
      idle_channel
      new_context
      none
      []
      (codes "add")
      7
      reply
      5
      6
      reply-Carries
unfolding new_context
call_is_answered_example =
    call_is_answered option_waker raw_codec unbounded (Unit {0}) (λ _. true) (λ _. 1000)
      idle_channel idle_channel new_context none [] (codes "add") 7 reply 5 6 reply-Carries
      option_waker-IsAtomicWaker unbounded-IsChannel refl refl refl refl refl
