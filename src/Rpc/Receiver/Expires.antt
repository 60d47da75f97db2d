-- ===== src/Rpc/Receiver/Expires.antt =====
-- The handling of a frame leaves a context expired or not, as it was.
use rpc_it_rs.Base.{
  ℕ, ◌≡◌, refl, ◌∙◌, inl, inr, Bool, Option, none, some, [], Result, Ensures, Ensures-bind,
  Ensures-any, if-both, ◌==◌, get_elem?, Option-cases, Result-cases,
}
use rpc_it_rs.Base.Assoc.{lookup}
use rpc_it_rs.Defs.{Bytes, RangeType}
use rpc_it_rs.Codec.{Codec, ResponseError, InboundFrameType, request, notify, response}
use rpc_it_rs.Waker.{AtomicWaker}
use rpc_it_rs.Rpc.Types.{ResponseState}
use rpc_it_rs.Rpc.ReqRep.{RequestContext, wake, update_response, deliver, set_response}
use rpc_it_rs.Rpc.Inbound.{Inbound, new_request, new_notify, method_bytes}
use rpc_it_rs.Rpc.Receiver.{check_method, handle_response, handle_frame, handle_inbound_once}

-- A context, if there is one, is expired or not as `v` tells.
abbrev pub Expires : {W : Type 0} → Bool → Option (RequestContext W) → Type 0
Expires v none = Unit {0}
Expires v (some c) = c.expired ≡ v

module _ {W : Type 0} (aw : AtomicWaker W) where
  wake_expired : (c : RequestContext W) (at : ℕ) → (wake aw c at).expired ≡ c.expired
  unfolding wake
  wake_expired c at = elim (Option-cases (get_elem? c.waiters at)) [
    | inl e ↦ rw (e, wake) refl
    | inr (w, e) ↦ rw (e, wake) refl
  ]

  update_response_expired :
      (c : RequestContext W) (at : ℕ) (f : ResponseState → ResponseState)
      → (update_response aw c at f).expired ≡ c.expired
  unfolding update_response
  update_response_expired c at f = elim (Option-cases (get_elem? c.waiters at)) [
    | inl e ↦ rw (e, update_response) refl
    | inr (w, e) ↦ rw (e, update_response) refl
  ]

  deliver_expired :
      (c : RequestContext W) (at : ℕ) (new : ResponseState)
      → (deliver aw c at new).expired ≡ c.expired
  unfolding deliver
  deliver_expired c at new = wake_expired _ at ∙ update_response_expired c at _

  set_response_expired :
      (c : RequestContext W) (id : ℕ) (ib : Bytes) (payload : RangeType)
      (errc : Option ResponseError)
      → (set_response aw c id ib payload errc).0.expired ≡ c.expired
  unfolding set_response
  set_response_expired c id ib payload errc = elim (Option-cases (lookup id c.wait_list)) [
    | inl e ↦ rw (e, set_response) refl
    | inr (at, e) ↦
        rw (e, set_response)
          (if-both (λ (x : RequestContext W × Result (Unit {0}) Bytes). x.0.expired ≡ c.expired)
            c.expired refl (deliver_expired c at _))
  ]

module _ {W S : Type 0} (IoError : Type 0) (aw : AtomicWaker W) (codec : Codec S)
    (is_utf8 : Bytes → Bool) (v : Bool) where
  check_method-Expires :
      (reqs : Option (RequestContext W)) (inbound : Inbound)
      → Expires v reqs
      → Ensures (λ h. Expires v h.0) (check_method IoError aw codec is_utf8 reqs inbound)
  unfolding check_method
  check_method-Expires reqs inbound e =
      Ensures-bind (λ _. Unit {0}) (λ h. Expires v h.0) (method_bytes inbound) _
        (Ensures-any (method_bytes inbound)) (λ name _. e)

  handle_response-Expires :
      (reqs : Option (RequestContext W)) (ib : Bytes) (id : ℕ) (errc : Option ResponseError)
      (payload : RangeType)
      → Expires v reqs
      → Expires v (handle_response IoError aw codec is_utf8 reqs ib id errc payload).0
  unfolding handle_response
  handle_response-Expires none ib id errc payload e = tt
  handle_response-Expires (some c) ib id errc payload e =
      let same = set_response_expired aw c id ib payload errc ∙ e in
      elim (Result-cases (set_response aw c id ib payload errc).1) [
        | inl (_, r) ↦ rw (r, handle_response) same
        | inr (_, r) ↦ rw (r, handle_response) same
      ]

  handle_frame-Expires :
      (reqs : Option (RequestContext W)) (ib : Bytes) (frame : InboundFrameType)
      → Expires v reqs
      → Ensures (λ h. Expires v h.0) (handle_frame IoError aw codec is_utf8 reqs ib frame)
  unfolding handle_frame
  handle_frame-Expires reqs ib (request id method params) e =
      if-both (Ensures (λ h. Expires v h.0)) (id.end == 0) tt (
        check_method-Expires reqs
          (new_request ib method params (record { begin = id.begin; end = id.end })) e)
  handle_frame-Expires reqs ib (notify method params) e =
      check_method-Expires reqs (new_notify ib method params) e
  handle_frame-Expires reqs ib (response id errc payload) e =
      handle_response-Expires reqs ib id errc payload e

  pub handle_inbound_once-Expires :
      (reqs : Option (RequestContext W)) (ib : Bytes)
      → Expires v reqs
      → Ensures (λ h. Expires v h.0) (handle_inbound_once IoError aw codec is_utf8 reqs ib)
  unfolding handle_inbound_once
  handle_inbound_once-Expires reqs ib e = elim (Result-cases (codec.decode_inbound [] ib).2) [
    | inl (frame, r) ↦ rw (r, handle_inbound_once) (handle_frame-Expires reqs _ frame e)
    | inr (_, r) ↦ rw (r, handle_inbound_once) e
  ]
