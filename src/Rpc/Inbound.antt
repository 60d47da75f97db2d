-- ===== src/Rpc/Inbound.antt =====
-- src/rpc/receiver.rs, the inbound messages: the words that say whether a message is still a
-- request, its responses, and the drop guard. The `owner` is the codec and the channel to the
-- writer, which is `none` where the core has no writer.
pub mod Once
pub mod Answers
pub mod Conservation
use rpc_it_rs.Base.{
  ℕ, Bool, true, false, not, Option, none, some, [], Result, ok, err, Outcome, returns, panics,
  ◌>>=◌, ◌==◌, if◌then◌else◌,
}
use rpc_it_rs.Defs.{Bytes, RangeType, NonZeroRangeType, empty_range, index_range}
use rpc_it_rs.Defs.RangeWord.{req_id_to_inner, to_req_range}
use rpc_it_rs.Codec.{
  Codec, ResponseError, unknown, invalid_argument, unauthorized, busy, method_not_found, aborted,
  unhandled, non_utf8_method_name, parse_failed, EncodeError, EncodeResponsePayload,
}
use rpc_it_rs.Channel.{Channel, TrySendError, full, closed}
use rpc_it_rs.Rpc.Types.{
  WriterDirective, write_msg, SendMsgError, TrySendMsgError, SendResponseError,
  TrySendResponseError,
}
use rpc_it_rs.Rpc.Burst.{PreparedPacket}

-- `InboundInner`; a `req_id` of zero is a notification.
pub record Inbound : Type 0 where
  pub buffer : Bytes
  pub method : RangeType
  pub payload : RangeType
  pub req_id : ℕ

unfoldable pub new_request : Bytes → RangeType → RangeType → NonZeroRangeType → Inbound
unfolding req_id_to_inner
new_request buffer method payload req_id = record {
  buffer = buffer;
  method = method;
  payload = payload;
  req_id = req_id_to_inner (some req_id);
}

unfoldable pub new_notify : Bytes → RangeType → RangeType → Inbound
new_notify buffer method payload = record {
  buffer = buffer;
  method = method;
  payload = payload;
  req_id = 0;
}

-- `Inbound::is_request`.
unfoldable pub is_request : Inbound → Bool
is_request ib = not (ib.req_id == 0)

-- `atomic_take_req_range`: the message after the swap, and the range.
unfoldable pub atomic_take_req_range : Inbound → Inbound × Option NonZeroRangeType
unfolding to_req_range
atomic_take_req_range ib = (record ib { req_id = 0 }, to_req_range ib.req_id)

-- `Inbound::take`: what remains, and the message.
unfoldable pub take_inbound : Inbound → Inbound × Inbound
unfolding atomic_take_req_range req_id_to_inner
take_inbound ib =
    let (rest, req_id) = atomic_take_req_range ib in
    (
      record rest { buffer = []; method = empty_range; payload = empty_range },
      record {
        buffer = rest.buffer;
        method = rest.method;
        payload = rest.payload;
        req_id = req_id_to_inner req_id;
      },
    )

-- `Inbound::clone_message`: the original, and the clone.
unfoldable pub clone_message : Inbound → Bool → Inbound × Inbound
unfolding atomic_take_req_range req_id_to_inner
clone_message ib true =
    let (rest, req_id) = atomic_take_req_range ib in
    (rest, record ib { req_id = req_id_to_inner req_id })
clone_message ib false = (ib, record ib { req_id = req_id_to_inner none })

-- `retrieve_req_id`.
unfoldable pub retrieve_req_id : Inbound → NonZeroRangeType → Outcome Bytes
unfolding index_range
retrieve_req_id ib range = index_range range.begin range.end ib.buffer

-- `Inbound::request_id`.
unfoldable pub request_id : Inbound → Outcome (Option Bytes)
unfolding to_req_range retrieve_req_id
request_id ib = elim (to_req_range ib.req_id) [
  | none ↦ returns none
  | some range ↦ retrieve_req_id ib range >>= λ id. returns (some id)
]

-- `InboundInner::method_bytes` and `Inbound::payload_bytes`.
unfoldable pub method_bytes : Inbound → Outcome Bytes
unfolding index_range
method_bytes ib = index_range ib.method.begin ib.method.end ib.buffer

unfoldable pub payload_bytes : Inbound → Outcome Bytes
unfolding index_range
payload_bytes ib = index_range ib.payload.begin ib.payload.end ib.buffer

-- `Inbound::drop_request`.
unfoldable pub drop_request : Inbound → Inbound
unfolding atomic_take_req_range
drop_request ib = (atomic_take_req_range ib).0

-- `Inbound::clone_reusable_packet`.
unfoldable pub clone_reusable_packet : {S : Type 0} → Codec S → Inbound → Option PreparedPacket
clone_reusable_packet codec ib =
    if codec.codec_reusability_id == 0
    then none
    else some (record { data_bytes = ib.buffer; hash = codec.codec_reusability_id })

-- `ResponsePayload<T>`, and its three conversions.
abbrev pub ResponsePayload : Type 0 → Type 0
ResponsePayload T = Result T (ResponseError × Option T)

unfoldable pub from_response_error : {T : Type 0} → ResponseError → ResponsePayload T
from_response_error code = err (code, none)

unfoldable pub from_result : {T : Type 0} → Result T T → ResponsePayload T
from_result (ok obj) = ok obj
from_result (err obj) = err (unknown, some obj)

unfoldable pub from_pair : {T : Type 0} → ResponseError × T → ResponsePayload T
from_pair (code, obj) = err (code, some obj)

-- The match of `Inbound::encode_response` on the payload.
unfoldable pub encoded_payload : {T : Type 0} → ResponsePayload T → EncodeResponsePayload T
encoded_payload (ok obj) = EncodeResponsePayload.ok obj
encoded_payload (err (unknown, some obj)) = EncodeResponsePayload.err_object_only obj
encoded_payload (err (invalid_argument, some obj)) = EncodeResponsePayload.err invalid_argument obj
encoded_payload (err (unauthorized, some obj)) = EncodeResponsePayload.err unauthorized obj
encoded_payload (err (busy, some obj)) = EncodeResponsePayload.err busy obj
encoded_payload (err (method_not_found, some obj)) = EncodeResponsePayload.err method_not_found obj
encoded_payload (err (aborted, some obj)) = EncodeResponsePayload.err aborted obj
encoded_payload (err (unhandled, some obj)) = EncodeResponsePayload.err unhandled obj
encoded_payload (err (non_utf8_method_name, some obj)) =
    EncodeResponsePayload.err non_utf8_method_name obj
encoded_payload (err (parse_failed, some obj)) = EncodeResponsePayload.err parse_failed obj
encoded_payload (err (errc, none)) = EncodeResponsePayload.err_code_only errc

module _ {Q S : Type 0} (ch : Channel Q WriterDirective) (codec : Codec S) where
  -- `Inbound::encode_response`: the message, the buffer, and `None` for no request.
  unfoldable pub encode_response :
      Inbound
      → Bytes
      → ResponsePayload S
      → Outcome (Inbound × Bytes × Option (Result (Unit {0}) EncodeError))
  unfolding atomic_take_req_range retrieve_req_id encoded_payload
  encode_response ib buf result = elim (atomic_take_req_range ib).1 [
    | none ↦ returns ((atomic_take_req_range ib).0, buf, none)
    | some range ↦ retrieve_req_id ib range >>= λ id.
        let (buf', r) = codec.encode_response id (encoded_payload result) buf in
        returns ((atomic_take_req_range ib).0, buf', some r)
  ]

  -- The channel, the message, the buffer, and the result.
  abbrev pub Responded : Type 0 → Type 0
  Responded X = Option Q × Inbound × Bytes × Result (Unit {0}) X

  -- Behind `encode_response` in `Inbound::response`.
  unfoldable pub send_response :
      Option Q
      → Inbound × Bytes × Option (Result (Unit {0}) EncodeError)
      → Responded SendResponseError
  send_response tx (ib, buf, none) = (tx, ib, buf, err SendResponseError.inbound_not_request)
  send_response tx (ib, buf, some (err e)) =
      (tx, ib, buf, err (SendResponseError.msg_error (SendMsgError.encode_failed e)))
  send_response none (ib, buf, some (ok _)) =
      (none, ib, buf, err (SendResponseError.msg_error SendMsgError.channel_closed))
  send_response (some q) (ib, buf, some (ok _)) =
      let (q', r) = ch.send q (write_msg buf) in
      elim r [
        | ok _ ↦ (some q', ib, [], ok tt)
        | err e ↦ (some q', ib, [], err (SendResponseError.msg_error SendMsgError.channel_closed))
      ]

  -- `Inbound::response`.
  unfoldable pub response :
      Option Q → Inbound → Bytes → ResponsePayload S → Outcome (Responded SendResponseError)
  unfolding encode_response send_response
  response tx ib buf result = encode_response ib buf result >>= λ e. returns (send_response tx e)

  -- The match of `try_response` on the error of the channel.
  unfoldable pub try_response_err : TrySendError WriterDirective → TrySendMsgError
  try_response_err (full d) = TrySendMsgError.channel_at_capacity
  try_response_err (closed d) = TrySendMsgError.channel_closed

  -- Behind `encode_response` in `Inbound::try_response`.
  unfoldable pub try_send_response :
      Option Q
      → Inbound × Bytes × Option (Result (Unit {0}) EncodeError)
      → Responded TrySendResponseError
  unfolding try_response_err
  try_send_response tx (ib, buf, none) = (tx, ib, buf, err TrySendResponseError.inbound_not_request)
  try_send_response tx (ib, buf, some (err e)) =
      (tx, ib, buf, err (TrySendResponseError.msg_error (TrySendMsgError.encode_failed e)))
  try_send_response none (ib, buf, some (ok _)) =
      (none, ib, buf, err (TrySendResponseError.msg_error TrySendMsgError.channel_closed))
  try_send_response (some q) (ib, buf, some (ok _)) =
      let (q', r) = ch.try_send q (write_msg buf) in
      elim r [
        | ok _ ↦ (some q', ib, [], ok tt)
        | err e ↦ (some q', ib, [], err (TrySendResponseError.msg_error (try_response_err e)))
      ]

  -- `Inbound::try_response`.
  unfoldable pub try_response :
      Option Q → Inbound → Bytes → ResponsePayload S → Outcome (Responded TrySendResponseError)
  unfolding encode_response try_send_response
  try_response tx ib buf result =
      encode_response ib buf result >>= λ e. returns (try_send_response tx e)

  -- `Inbound`'s `Drop`: the channel, and the result of the response that was tried, which the code
  -- ignores.
  unfoldable pub drop_inbound :
      Option Q → Inbound → Outcome (Option Q × Option (Result (Unit {0}) TrySendResponseError))
  unfolding is_request try_response from_response_error
  drop_inbound tx ib = elim (is_request ib) [
    | true ↦ try_response tx ib [] (from_response_error unhandled) >>= λ r. returns (r.0, some r.3)
    | false ↦ returns (tx, none)
  ]
