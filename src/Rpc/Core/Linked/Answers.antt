-- ===== src/Rpc/Core/Linked/Answers.antt =====
-- What the calls of an `Inbound` leave in the channel.
use rpc_it_rs.Base.{
  Ensures, Ensures-bind, Ensures-any, inl, inr, Bool-cases, Result-cases, Option, none, some, [],
  Result, ok, err,
}
use rpc_it_rs.Defs.{Bytes}
use rpc_it_rs.Codec.{Codec, unhandled, EncodeError}
use rpc_it_rs.Channel.{Channel, IsChannel}
use rpc_it_rs.Rpc.Types.{WriterDirective, write_msg, SendResponseError, TrySendResponseError}
use rpc_it_rs.Rpc.Inbound.{
  Inbound, ResponsePayload, is_request, send_response, try_send_response, try_response,
  drop_inbound, method_bytes, from_response_error, new_request, new_notify,
}
use rpc_it_rs.Rpc.Inbound
use rpc_it_rs.Rpc.Core.HandleSteps.{InboundCall, inbound_call, respond, try_respond, drop}
use rpc_it_rs.Rpc.Core.Linked.Queue.{QuietTx, try_send-Quiet, send-Quiet}

module _ {Q : Type 0} (ch : Channel Q WriterDirective) where
  -- What holds of the writer's end of the channel and is kept by the sending of a response, is kept by
  -- the calls of an `Inbound`.
  module _ {S : Type 0} (codec : Codec S) (P : Option Q → Type 0)
      (sent : (q : Q) (buf : Bytes) → P (some q) → P (some (ch.send q (write_msg buf)).0))
      (tried : (q : Q) (buf : Bytes)
        → P (some q)
        → P (some (ch.try_send q (write_msg buf)).0)) where
    abbrev pub Encoded : Type 0
    Encoded = Inbound × Bytes × Option (Result (Unit {0}) EncodeError)

    send_response-Keeps : (tx : Option Q) (e : Encoded) → P tx → P (send_response ch codec tx e).0
    unfolding send_response
    send_response-Keeps tx (ib, buf, none) h = h
    send_response-Keeps tx (ib, buf, some (err e)) h = h
    send_response-Keeps none (ib, buf, some (ok a)) h = h
    send_response-Keeps (some q) (ib, buf, some (ok a)) h =
        elim (Result-cases (ch.send q (write_msg buf)).1) [
          | inl (x, e) ↦ rw (e, send_response) (sent q buf h)
          | inr (x, e) ↦ rw (e, send_response) (sent q buf h)
        ]

    try_send_response-Keeps :
        (tx : Option Q) (e : Encoded) → P tx → P (try_send_response ch codec tx e).0
    unfolding try_send_response
    try_send_response-Keeps tx (ib, buf, none) h = h
    try_send_response-Keeps tx (ib, buf, some (err e)) h = h
    try_send_response-Keeps none (ib, buf, some (ok a)) h = h
    try_send_response-Keeps (some q) (ib, buf, some (ok a)) h =
        elim (Result-cases (ch.try_send q (write_msg buf)).1) [
          | inl (x, e) ↦ rw (e, try_send_response) (tried q buf h)
          | inr (x, e) ↦ rw (e, try_send_response) (tried q buf h)
        ]

    abbrev Tried : Option Q × Inbound × Bytes × Result (Unit {0}) TrySendResponseError → Type 0
    Tried r = P r.0

    abbrev Answered : Option Q × Inbound × Bytes × Result (Unit {0}) SendResponseError → Type 0
    Answered r = P r.0

    abbrev Dropped : Option Q × Option (Result (Unit {0}) TrySendResponseError) → Type 0
    Dropped r = P r.0

    try_response-Keeps :
        (tx : Option Q) (ib : Inbound) (buf : Bytes) (payload : ResponsePayload S)
        → P tx
        → Ensures Tried (try_response ch codec tx ib buf payload)
    unfolding try_response
    try_response-Keeps tx ib buf payload h =
        Ensures-bind (λ _. Unit {0}) Tried (Inbound.encode_response ch codec ib buf payload) _
          (Ensures-any (Inbound.encode_response ch codec ib buf payload))
          (λ e _. try_send_response-Keeps tx e h)

    pub inbound_call-Keeps :
        (call : InboundCall S) (tx : Option Q) (ib : Inbound)
        → P tx
        → Ensures P (inbound_call ch codec call tx ib)
    unfolding inbound_call Inbound.response drop_inbound
    inbound_call-Keeps (respond buf payload) tx ib h =
        Ensures-bind Answered P _ _
          (Ensures-bind (λ _. Unit {0}) Answered (Inbound.encode_response ch codec ib buf payload) _
            (Ensures-any (Inbound.encode_response ch codec ib buf payload))
            (λ e _. send_response-Keeps tx e h))
          (λ r v. v)
    inbound_call-Keeps (try_respond buf payload) tx ib h =
        Ensures-bind Tried P _ _ (try_response-Keeps tx ib buf payload h) (λ r v. v)
    inbound_call-Keeps drop tx ib h = elim (Bool-cases (is_request ib)) [
      | inl e ↦
          rw (e, drop_inbound)
            (Ensures-bind Dropped P _ _
              (Ensures-bind Tried Dropped _ _
                (try_response-Keeps tx ib [] (from_response_error unhandled) h) (λ r v. v))
              (λ r v. v))
      | inr e ↦ rw (e, drop_inbound) h
    ]

  -- A call of an `Inbound` leaves no request in the channel.
  pub inbound_call-Quiet :
      {S : Type 0} (codec : Codec S) (call : InboundCall S) (tx : Option Q) (ib : Inbound)
      → IsChannel ch
      → (QuietTx ch) tx
      → Ensures (QuietTx ch) (inbound_call ch codec call tx ib)
  inbound_call-Quiet codec call tx ib laws h =
      inbound_call-Keeps codec (QuietTx ch) (λ q buf k. send-Quiet ch laws q (write_msg buf) tt k)
        (λ q buf k. try_send-Quiet ch laws q (write_msg buf) tt k) call tx ib h
