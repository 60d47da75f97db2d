-- ===== src/Rpc/Inbound/Answers.antt =====
-- What each call on an inbound message does to the request that it holds.
use mathlib.Core.List.{append-nil}
use rpc_it_rs.Base.{
  ℕ, ◌+◌, Outcome, ◌≡◌, refl, sym, ◌∙◌, inl, inr, Bool, true, false, Option, none, some, [], ◌∷◌,
  Result, ok, err, returns, Result-cases, arith,
}
use rpc_it_rs.Defs.{Bytes}
use rpc_it_rs.Codec.{Codec, EncodeError, unhandled}
use rpc_it_rs.Channel.{Channel, IsChannel}
use rpc_it_rs.Defs.RangeWord.{req_id_to_inner}
use rpc_it_rs.Rpc.Types.{WriterDirective, write_msg}
use rpc_it_rs.Rpc.Inbound.{
  Inbound, is_request, atomic_take_req_range, take_inbound, clone_message, drop_request,
  ResponsePayload, response, send_response, try_response, try_send_response, drop_inbound,
  Responded, from_response_error,
}
use rpc_it_rs.Rpc.Inbound.Once.{
  IsInbound, holds, sent, unsent, lost, waiting, Queues, encoded_for, atomic_take_cases,
  holds-atomic_take, repack, Call, takes, drops_request, drops, clones, responds, try_responds, act,
  Conserves, encode_response_cases,
}

taken-IsInbound : (ib : Inbound) → IsInbound (atomic_take_req_range ib).0
unfolding atomic_take_req_range
taken-IsInbound ib = inl refl

module _ {Q S : Type 0} (ch : Channel Q WriterDirective) (codec : Codec S)
    (laws : IsChannel ch) where
  nothing : (tx : Option Q) → Queues ch codec tx tx 0
  nothing tx = ([], sym (append-nil (waiting ch codec tx)), refl)

  take-Conserves :
      (tx : Option Q) (ib : Inbound)
      → IsInbound ib
      → Conserves ch codec tx ib (act ch codec tx ib takes)
  unfolding act take_inbound atomic_take_req_range holds is_request
  take-Conserves tx ib v =
      (_, refl, (inl refl, (rw (repack ib v) v, tt)), rw (repack ib v) (omega arith), nothing tx)

  clone-Conserves :
      (tx : Option Q) (ib : Inbound) (b : Bool)
      → IsInbound ib
      → Conserves ch codec tx ib (act ch codec tx ib (clones b))
  unfolding act clone_message atomic_take_req_range holds is_request req_id_to_inner
  clone-Conserves tx ib true v =
      (_, refl, (inl refl, (rw (repack ib v) v, tt)), rw (repack ib v) (omega arith), nothing tx)
  clone-Conserves tx ib false v = (_, refl, (v, (inl refl, tt)), omega arith, nothing tx)

  drop_request-Conserves :
      (tx : Option Q) (ib : Inbound)
      → IsInbound ib
      → Conserves ch codec tx ib (act ch codec tx ib drops_request)
  unfolding act drop_request
  drop_request-Conserves tx ib v = elim (atomic_take_cases ib v) [
    | inl (h, q, e) ↦
        (_, refl, (taken-IsInbound ib, tt), rw (e, h, holds-atomic_take ib), nothing tx)
    | inr (h, q, found) ↦
        (_, refl, (taken-IsInbound ib, tt), rw (found.4, h, holds-atomic_take ib), nothing tx)
  ]

  -- A response that was encoded, or not, is sent or could not be; what was sent is in the channel.
  Sends : {X : Type 0} (tx : Option Q) (ib : Inbound) (n : ℕ) → Responded ch codec X → Type 0
  Sends tx ib n out = (out.1 ≡ ib) × (sent out.3 + n ≡ 1) × Queues ch codec tx out.0 (sent out.3)

  send_response-Sends :
      (tx : Option Q) (ib : Inbound) (buf : Bytes) (r : Result (Unit {0}) EncodeError)
      → Sends tx ib (unsent ch.send tx (buf, r)) (send_response ch codec tx (ib, buf, some r))
  unfolding send_response Sends
  send_response-Sends tx ib buf (err e) = (refl, refl, nothing tx)
  send_response-Sends none ib buf (ok _) = (refl, refl, nothing none)
  send_response-Sends (some q) ib buf (ok _) = elim (Result-cases (ch.send q (write_msg buf)).1) [
    | inl (_, e) ↦
        rw (e, send_response)
          (refl, refl, (write_msg buf ∷ [], laws.send_ok q (write_msg buf) e, refl))
    | inr (x, e) ↦
        rw (e, send_response)
          (
            refl,
            refl,
            ([], laws.send_kept q (write_msg buf) x e ∙ sym (append-nil (ch.queued q)), refl),
          )
  ]

  try_send_response-Sends :
      (tx : Option Q) (ib : Inbound) (buf : Bytes) (r : Result (Unit {0}) EncodeError)
      → Sends tx ib
          (unsent ch.try_send tx (buf, r))
          (try_send_response ch codec tx (ib, buf, some r))
  unfolding try_send_response Sends
  try_send_response-Sends tx ib buf (err e) = (refl, refl, nothing tx)
  try_send_response-Sends none ib buf (ok _) = (refl, refl, nothing none)
  try_send_response-Sends (some q) ib buf (ok _) =
      elim (Result-cases (ch.try_send q (write_msg buf)).1) [
        | inl (_, e) ↦
            rw (e, try_send_response)
              (refl, refl, (write_msg buf ∷ [], (laws.try_send_ok q (write_msg buf) e).0, refl))
        | inr (x, e) ↦
            rw (e, try_send_response)
              (
                refl,
                refl,
                (
                  [],
                  laws.try_send_kept q (write_msg buf) x e ∙ sym (append-nil (ch.queued q)),
                  refl,
                ),
              )
      ]

  -- The outcome of a response call: what could not be sent is counted from the codec and the channel.
  Answered :
      {X : Type 0}
      → (Q → WriterDirective → Q × Result (Unit {0}) X)
      → {Y : Type 0} → Option Q
      → Inbound
      → Bytes
      → ResponsePayload S
      → Outcome (Responded ch codec Y)
      → Type 0
  Answered offers {Y} tx ib buf p r =
      (out : Responded ch codec Y) × (r ≡ returns out)
      × (out.1 ≡ (atomic_take_req_range ib).0)
      × (sent out.3 + lost ch codec offers tx ib buf p (atomic_take_req_range ib).1 ≡ holds ib)
      × Queues ch codec tx out.0 (sent out.3)

  response_cases :
      (tx : Option Q) (ib : Inbound) (buf : Bytes) (p : ResponsePayload S)
      → IsInbound ib
      → Answered ch.send tx ib buf p (response ch codec tx ib buf p)
  unfolding response send_response Answered Sends
  response_cases tx ib buf p v = elim (encode_response_cases ch codec ib buf p v) [
    | inl (h, none_taken, e) ↦ (
      send_response ch codec tx ((atomic_take_req_range ib).0, buf, none),
      rw e,
      refl,
      rw (h, none_taken) refl,
      nothing tx,
    )
    | inr (h, _, (r, found, e)) ↦
        let x = encoded_for ch codec ib buf p r in
        let (same, n, more) = send_response-Sends tx (atomic_take_req_range ib).0 x.0 x.1 in
        (
          send_response ch codec tx ((atomic_take_req_range ib).0, x.0, some x.1),
          rw e,
          same,
          rw (found, h) n,
          more,
        )
  ]

  try_response_cases :
      (tx : Option Q) (ib : Inbound) (buf : Bytes) (p : ResponsePayload S)
      → IsInbound ib
      → Answered ch.try_send tx ib buf p (try_response ch codec tx ib buf p)
  unfolding try_response try_send_response Answered Sends
  try_response_cases tx ib buf p v = elim (encode_response_cases ch codec ib buf p v) [
    | inl (h, none_taken, e) ↦ (
      try_send_response ch codec tx ((atomic_take_req_range ib).0, buf, none),
      rw e,
      refl,
      rw (h, none_taken) refl,
      nothing tx,
    )
    | inr (h, _, (r, found, e)) ↦
        let x = encoded_for ch codec ib buf p r in
        let (same, n, more) = try_send_response-Sends tx (atomic_take_req_range ib).0 x.0 x.1 in
        (
          try_send_response ch codec tx ((atomic_take_req_range ib).0, x.0, some x.1),
          rw e,
          same,
          rw (found, h) n,
          more,
        )
  ]

  response-Conserves :
      (tx : Option Q) (ib : Inbound) (buf : Bytes) (p : ResponsePayload S)
      → IsInbound ib
      → Conserves ch codec tx ib (act ch codec tx ib (responds buf p))
  unfolding act Answered
  response-Conserves tx ib buf p v =
      let (out, e, same, n, more) = response_cases tx ib buf p v in
      (
        (
          out.0,
          out.1 ∷ [],
          sent out.3,
          lost ch codec ch.send tx ib buf p (atomic_take_req_range ib).1,
          0,
        ),
        rw e refl,
        (rw same (taken-IsInbound ib), tt),
        rw (same, holds-atomic_take ib) (omega (arith, n)),
        more,
      )

  try_response-Conserves :
      (tx : Option Q) (ib : Inbound) (buf : Bytes) (p : ResponsePayload S)
      → IsInbound ib
      → Conserves ch codec tx ib (act ch codec tx ib (try_responds buf p))
  unfolding act Answered
  try_response-Conserves tx ib buf p v =
      let (out, e, same, n, more) = try_response_cases tx ib buf p v in
      (
        (
          out.0,
          out.1 ∷ [],
          sent out.3,
          lost ch codec ch.try_send tx ib buf p (atomic_take_req_range ib).1,
          0,
        ),
        rw e refl,
        (rw same (taken-IsInbound ib), tt),
        rw (same, holds-atomic_take ib) (omega (arith, n)),
        more,
      )

  drop-Conserves :
      (tx : Option Q) (ib : Inbound)
      → IsInbound ib
      → Conserves ch codec tx ib (act ch codec tx ib drops)
  unfolding act drop_inbound Answered
  drop-Conserves tx ib v = elim (atomic_take_cases ib v) [
    | inl (h, q, e) ↦ ((tx, [], 0, 0, 0), rw (q, e, drop_inbound, act), tt, sym h, nothing tx)
    | inr (h, q, _) ↦
        let (out, e, same, n, more) =
          try_response_cases tx ib [] (from_response_error unhandled) v in
        (
          (
            out.0,
            [],
            sent out.3,
            lost ch codec ch.try_send tx ib [] (from_response_error unhandled)
                (atomic_take_req_range ib).1,
            0,
          ),
          rw (q, e, drop_inbound, act) refl,
          tt,
          omega (arith, n),
          more,
        )
  ]

  pub act-Conserves :
      (tx : Option Q) (ib : Inbound) (c : Call S)
      → IsInbound ib
      → Conserves ch codec tx ib (act ch codec tx ib c)
  act-Conserves tx ib takes v = take-Conserves tx ib v
  act-Conserves tx ib drops_request v = drop_request-Conserves tx ib v
  act-Conserves tx ib drops v = drop-Conserves tx ib v
  act-Conserves tx ib (clones b) v = clone-Conserves tx ib b v
  act-Conserves tx ib (responds buf p) v = response-Conserves tx ib buf p v
  act-Conserves tx ib (try_responds buf p) v = try_response-Conserves tx ib buf p v
