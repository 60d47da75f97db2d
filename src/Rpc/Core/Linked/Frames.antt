-- ===== src/Rpc/Core/Linked/Frames.antt =====
-- What a frame that is handled does to the request context.
use rpc_it_rs.Base.{
  Ensures, Ensures-bind, Ensures-any, ℕ, ◌≡◌, inl, inr, Result-cases, ◌==◌, refl, Bool, Option,
  none, some, [], if-both,
}
use rpc_it_rs.Defs.{Bytes, RangeType}
use rpc_it_rs.Codec.{Codec, InboundFrameType, ResponseError, request, notify, response}
use rpc_it_rs.Waker.{AtomicWaker}
use rpc_it_rs.Rpc.ReqRep.{RequestContext, set_response}
use rpc_it_rs.Rpc.Inbound.{Inbound, method_bytes, new_request, new_notify}
use rpc_it_rs.Rpc.Receiver.{
  Handled, check_method, handle_response, handle_frame, handle_inbound_once,
}
use rpc_it_rs.Rpc.Core.{is_some}

-- Handling a frame neither makes nor removes the request context.
module _ {W S : Type 0} (IoError : Type 0) (aw : AtomicWaker W) (codec : Codec S)
    (is_utf8 : Bytes → Bool) where
  abbrev SameReqs : Option (RequestContext W) → Handled IoError aw codec is_utf8 → Type 0
  SameReqs c h = is_some h.0 ≡ is_some c

  check_method-SameReqs :
      (c : Option (RequestContext W)) (ib : Inbound)
      → Ensures (SameReqs c) (check_method IoError aw codec is_utf8 c ib)
  unfolding check_method
  check_method-SameReqs c ib =
      Ensures-bind (λ _. Unit {0}) (SameReqs c) (method_bytes ib) _ (Ensures-any (method_bytes ib))
        (λ name _. refl)

  handle_response-SameReqs :
      (c : Option (RequestContext W)) (ib : Bytes) (id : ℕ) (errc : Option ResponseError)
      (payload : RangeType)
      → SameReqs c (handle_response IoError aw codec is_utf8 c ib id errc payload)
  unfolding handle_response
  handle_response-SameReqs none ib id errc payload = refl
  handle_response-SameReqs (some c) ib id errc payload =
      elim (Result-cases (set_response aw c id ib payload errc).1) [
        | inl (a, e) ↦ rw (e, handle_response) refl
        | inr (a, e) ↦ rw (e, handle_response) refl
      ]

  handle_frame-SameReqs :
      (c : Option (RequestContext W)) (ib : Bytes) (frame : InboundFrameType)
      → Ensures (SameReqs c) (handle_frame IoError aw codec is_utf8 c ib frame)
  unfolding handle_frame
  handle_frame-SameReqs c ib (request id method params) =
      if-both (Ensures (SameReqs c)) (id.end == 0) tt (
        check_method-SameReqs c
          (new_request ib method params (record { begin = id.begin; end = id.end })))
  handle_frame-SameReqs c ib (notify method params) =
      check_method-SameReqs c (new_notify ib method params)
  handle_frame-SameReqs c ib (response id errc payload) =
      handle_response-SameReqs c ib id errc payload

  pub handle_inbound_once-SameReqs :
      (c : Option (RequestContext W)) (ib : Bytes)
      → Ensures (SameReqs c) (handle_inbound_once IoError aw codec is_utf8 c ib)
  unfolding handle_inbound_once
  handle_inbound_once-SameReqs c ib = elim (Result-cases (codec.decode_inbound [] ib).2) [
    | inl (frame, e) ↦ rw (e, handle_inbound_once) (handle_frame-SameReqs c _ frame)
    | inr (x, e) ↦ rw (e, handle_inbound_once) refl
  ]
