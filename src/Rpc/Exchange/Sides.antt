-- ===== src/Rpc/Exchange/Sides.antt =====
-- What each side of a call does.
use rpc_it_rs.Base.{
  ℕ, ◌≡◌, refl, ap, ◌∙◌, Bool, true, false, Option, none, some, [], ◌∷◌, ◌++◌, ok, returns, length,
  slice, ◌==◌, if-split, arith,
}
use rpc_it_rs.Base.Assoc.{lookup}
use rpc_it_rs.Defs.{Bytes, RangeType, NonZeroRangeType, IsNonZeroRange, index_range-in}
use rpc_it_rs.Defs.RangeWord.{to_req_range-req_id_to_inner}
use rpc_it_rs.Codec.{Codec, ResponseError, request, response}
use rpc_it_rs.Waker.{AtomicWaker}
use rpc_it_rs.Channel.{Channel}
use rpc_it_rs.Rpc.Types.{ResponseState, WriterDirective, write_msg, write_req_msg}
use rpc_it_rs.Rpc.ReqRep.{RequestContext, Receive, set_response, try_allocate_new_request}
use rpc_it_rs.Rpc.ReqRep.Cells.{cell}
use rpc_it_rs.Rpc.Sender.{
  encode_request, encode_rounds, after_encode, after_allocate, try_send_request, try_send_encoded,
  try_send_frame,
}
use rpc_it_rs.Rpc.Inbound.{
  Inbound, ResponsePayload, new_request, encoded_payload, method_bytes, encode_response,
  atomic_take_req_range, send_response, retrieve_req_id,
}
use rpc_it_rs.Rpc.Inbound
use rpc_it_rs.Rpc.Receiver.{handle_inbound_once, handle_frame, handle_response, check_method}
use rpc_it_rs.Rpc.Receiver.Frame.{FrameInBounds}

abbrev pub as_id : RangeType → NonZeroRangeType
as_id id = record { begin = id.begin; end = id.end }

module _ {W S Q : Type 0} (aw : AtomicWaker W) (codec : Codec S)
    (ch : Channel Q WriterDirective) where
  -- The caller's context behind the registration.
  abbrev pub registered : RequestContext W → ℕ → RequestContext W
  registered c id = record c {
    wait_list = (id, length c.waiters) ∷ c.wait_list;
    waiters = c.waiters ++ cell aw.new ResponseState.none ∷ [];
  }

  abbrev pub handle_of : RequestContext W → ℕ → Receive
  handle_of c id = record { request_id = id; wait_obj = length c.waiters }

  allocate_registers :
      (c : RequestContext W) (id : ℕ)
      → c.expired ≡ false
      → lookup id c.wait_list ≡ none
      → try_allocate_new_request aw c id ≡ (registered c id, some (handle_of c id))
  unfolding try_allocate_new_request
  allocate_registers c id alive free =
      if-split (λ p. p ≡ (registered c id, some (handle_of c id))) c.expired
        (λ e. absurd (ground (arith, e, alive))) (λ _. rw free refl)

  encode_request_registers :
      (ids : ℕ → ℕ) (c d : RequestContext W) (buf method frame : Bytes) (params : S) (x : Receive)
      → c.expired ≡ false
      → codec.encode_request (ids 3) method params [] ≡ (frame, ok (ids 3))
      → try_allocate_new_request aw c (ids 3) ≡ (d, some x)
      → encode_request aw codec ids c buf method params ≡ (d, frame, some (ok x))
  unfolding encode_request encode_rounds after_encode after_allocate
  encode_request_registers ids c d buf method frame params x alive encoded allocated =
      simp (alive, encoded, allocated)

  try_send_encoded_sends :
      (q : Q) (c : RequestContext W) (frame : Bytes) (x : Receive)
      → (ch.try_send q (write_req_msg frame x.request_id)).1 ≡ ok tt
      → try_send_encoded ch aw codec q (c, frame, some (ok x))
        ≡ returns ((ch.try_send q (write_req_msg frame x.request_id)).0, c, [], ok x)
  unfolding try_send_encoded try_send_frame
  try_send_encoded_sends q c frame x accepted = rw (accepted, try_send_encoded, try_send_frame) refl

  -- The request is registered, and its frame queued.
  pub try_send_request_sends :
      (ids : ℕ → ℕ) (q : Q) (c : RequestContext W) (buf method frame : Bytes) (params : S)
      → c.expired ≡ false
      → lookup (ids 3) c.wait_list ≡ none
      → codec.encode_request (ids 3) method params [] ≡ (frame, ok (ids 3))
      → (ch.try_send q (write_req_msg frame (ids 3))).1 ≡ ok tt
      → try_send_request ch aw codec ids q c buf method params
        ≡ returns (
          (ch.try_send q (write_req_msg frame (ids 3))).0,
          registered c (ids 3),
          [],
          ok (handle_of c (ids 3)),
        )
  unfolding try_send_request
  try_send_request_sends ids q c buf method frame params alive free encoded accepted =
      ap (try_send_encoded ch aw codec q) (
        encode_request_registers ids c (registered c (ids 3)) buf method frame params
          (handle_of c (ids 3)) alive encoded (allocate_registers c (ids 3) alive free))
      ∙ try_send_encoded_sends q (registered c (ids 3)) frame (handle_of c (ids 3)) accepted

  -- The server's handling of the request frame.
  pub request_received :
      (IoError : Type 0) (is_utf8 : Bytes → Bool) (c : Option (RequestContext W)) (frame : Bytes)
      (id name params : RangeType)
      → codec.decode_inbound [] frame ≡ ([], frame, ok (request id name params))
      → FrameInBounds (request id name params) frame
      → is_utf8 (slice name.begin name.end frame) ≡ true
      → handle_inbound_once IoError aw codec is_utf8 c frame
        ≡ returns (c, ok (some (new_request frame name params (as_id id))))
  unfolding handle_inbound_once handle_frame check_method method_bytes new_request
  request_received IoError is_utf8 c frame id name params decoded (b, x, y, z, m) utf8 =
      let ends : (id.end == 0) ≡ false = ground (arith, z) in
      let read = index_range-in name.begin name.end frame m.0 m.1 in
      rw (ap (λ d. d.2) decoded, handle_inbound_once)
        (rw (ap (λ d. d.1) decoded)
          (rw (ends, handle_frame) (rw (read, check_method) (rw utf8 refl))))

  -- The server's answer.
  pub request_answered :
      (q : Q) (frame written : Bytes) (id name params : RangeType) (p : ResponsePayload S)
      → FrameInBounds (request id name params) frame
      → codec.encode_response (slice id.begin id.end frame) (encoded_payload p) []
        ≡ (written, ok tt)
      → (ch.send q (write_msg written)).1 ≡ ok tt
      → (ib : Inbound) × (Inbound.response ch codec
            (some q)
            (new_request frame name params (as_id id))
            []
            p
          ≡ returns (some (ch.send q (write_msg written)).0, ib, [], ok tt))
  unfolding Inbound.response encode_response send_response new_request atomic_take_req_range
      retrieve_req_id
  request_answered q frame written id name params p (b, x, y, z, m) encoded accepted =
      let v : IsNonZeroRange (as_id id) = record { begin_fits = x; end_fits = y; nonzero = z } in
      let word = to_req_range-req_id_to_inner (as_id id) v in
      let read = index_range-in id.begin id.end frame b.0 b.1 in
      (
        (atomic_take_req_range (new_request frame name params (as_id id))).0,
        rw (word.0, read, encoded, Inbound.response, encode_response, retrieve_req_id)
            (rw (accepted, send_response) refl),
      )

  -- The caller's handling of the answer frame.
  pub answer_received :
      (IoError : Type 0) (is_utf8 : Bytes → Bool) (c d : RequestContext W) (frame : Bytes) (id : ℕ)
      (errc : Option ResponseError) (payload : RangeType)
      → codec.decode_inbound [] frame ≡ ([], frame, ok (response id errc payload))
      → set_response aw c id frame payload errc ≡ (d, ok tt)
      → handle_inbound_once IoError aw codec is_utf8 (some c) frame ≡ returns (some d, ok none)
  unfolding handle_inbound_once handle_frame handle_response
  answer_received IoError is_utf8 c d frame id errc payload decoded delivered =
      rw (ap (λ x. x.2) decoded, handle_inbound_once)
        (rw (ap (λ x. x.1) decoded, handle_frame)
          (rw (ap (λ x. x.1) delivered, handle_response)
            (ap (λ x. returns (some x.0, ok none)) delivered)))
