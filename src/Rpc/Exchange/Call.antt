-- ===== src/Rpc/Exchange/Call.antt =====
-- One call, from the caller through the channel and the codec to the server and back: the senders,
-- the receivers, the inbound message and the request context together. Frames pass between the two
-- sides unchanged.
use rpc_it_rs.Base.{
  ℕ, ◌≡◌, ap, ◌∙◌, Bool, true, false, Option, none, some, [], ◌∷◌, ◌++◌, ok, pending, returns,
  map_err, length, get_elem?-append_last,
}
use rpc_it_rs.Base.Assoc.{lookup, lookup-head}
use rpc_it_rs.Defs.{Bytes, index_range-in}
use rpc_it_rs.Codec.{Codec}
use rpc_it_rs.Waker.{AtomicWaker, IsAtomicWaker}
use rpc_it_rs.Channel.{Channel, IsChannel}
use rpc_it_rs.Rpc.Types.{
  ResponseState, ResponseReceiveError, WriterDirective, write_msg, write_req_msg,
}
use rpc_it_rs.Rpc.ReqRep.{RequestContext, Receive, poll, make_response}
use rpc_it_rs.Rpc.ReqRep.Cells.{cell, Ends, poll_pending}
use rpc_it_rs.Rpc.ReqRep.Wakeup.{response_polled}
use rpc_it_rs.Rpc.Sender.{try_send_request}
use rpc_it_rs.Rpc.Inbound.{
  Inbound, ResponsePayload, new_request, encoded_payload, method_bytes, encode_response,
  atomic_take_req_range, send_response, retrieve_req_id,
}
use rpc_it_rs.Rpc.Inbound
use rpc_it_rs.Rpc.Receiver.{handle_inbound_once}
use rpc_it_rs.Rpc.Exchange.Contract.{Carries}
use rpc_it_rs.Rpc.Exchange.Sides.{
  registered, handle_of, try_send_request_sends, as_id, request_received, request_answered,
  answer_received,
}

module _ {W S Q : Type 0} (aw : AtomicWaker W) (codec : Codec S)
    (ch : Channel Q WriterDirective) where
  -- What the caller, the server and the caller again do for one call.
  pub record Exchanged (IoError : Type 0) (is_utf8 : Bytes → Bool) (ids : ℕ → ℕ) (q sq : Q)
      (c : RequestContext W) (sc : Option (RequestContext W)) (buf method : Bytes) (params : S)
      (p : ResponsePayload S) (task later : ℕ)
      (x : Carries codec (ids 3) method params (encoded_payload p)) : Type 0 where
    pub caller_queue : Q
    pub caller : RequestContext W
    pub handle : Receive
    pub requested :
        try_send_request ch aw codec ids q c buf method params
        ≡ returns (caller_queue, caller, [], ok handle)
    pub queued_request :
        ch.queued caller_queue ≡ ch.queued q ++ write_req_msg x.request_frame (ids 3) ∷ []
    pub inbound : Inbound
    pub received :
        handle_inbound_once IoError aw codec is_utf8 sc x.request_frame
        ≡ returns (sc, ok (some inbound))
    pub called : method_bytes inbound ≡ returns method
    pub server_queue : Q
    pub spent : Inbound
    pub responded :
        Inbound.response ch codec (some sq) inbound [] p
        ≡ returns (some server_queue, spent, [], ok tt)
    pub queued_answer : ch.queued server_queue ≡ ch.queued sq ++ write_msg x.answer_frame ∷ []
    pub waiting : RequestContext W
    pub polled : poll aw codec caller (some handle) task ≡ returns (waiting, some handle, pending)
    pub answered : RequestContext W
    pub delivered :
        handle_inbound_once IoError aw codec is_utf8 (some waiting) x.answer_frame
        ≡ returns (some answered, ok none)
    pub woken : answered.woken ≡ task ∷ c.woken
    pub ends : Ends aw codec answered (ids 3) handle.wait_obj later (
        map_err ResponseReceiveError.response (make_response codec x.answer_frame x.payload x.errc))

  pub call_is_answered :
      (IoError : Type 0) (is_utf8 : Bytes → Bool) (ids : ℕ → ℕ) (q sq : Q) (c : RequestContext W)
      (sc : Option (RequestContext W)) (buf method : Bytes) (params : S) (p : ResponsePayload S)
      (task later : ℕ) (x : Carries codec (ids 3) method params (encoded_payload p))
      → IsAtomicWaker aw
      → IsChannel ch
      → c.expired ≡ false
      → lookup (ids 3) c.wait_list ≡ none
      → is_utf8 method ≡ true
      → (ch.try_send q (write_req_msg x.request_frame (ids 3))).1 ≡ ok tt
      → (ch.send sq (write_msg x.answer_frame)).1 ≡ ok tt
      → Exchanged IoError is_utf8 ids q sq c sc buf method params p task later x
  unfolding new_request method_bytes
  call_is_answered IoError is_utf8 ids q sq c sc buf method params p task later x wakes laws alive
        free utf8 taken answer_taken =
      let name = x.method_range in
      let (spent, responded) =
        request_answered aw codec ch sq x.request_frame x.answer_frame x.raw_id name x.params_range
          p x.in_bounds x.answered answer_taken in
      let (waiting, polled, waits, _, same) =
        poll_pending aw codec (registered aw codec ch c (ids 3)) (ids 3) (length c.waiters) task
          aw.new (get_elem?-append_last c.waiters (cell aw.new ResponseState.none))
          (lookup-head (ids 3) (length c.waiters) c.wait_list) alive in
      let (answered, delivered, woken, ends) =
        response_polled aw codec waiting (ids 3) (length c.waiters) task later x.answer_frame
          x.payload x.errc wakes waits in
      record {
        caller_queue = (ch.try_send q (write_req_msg x.request_frame (ids 3))).0;
        caller = registered aw codec ch c (ids 3);
        handle = handle_of aw codec ch c (ids 3);
        requested =
            try_send_request_sends aw codec ch ids q c buf method x.request_frame params alive free
              x.encoded taken;
        queued_request = (laws.try_send_ok q (write_req_msg x.request_frame (ids 3)) taken).0;
        inbound = new_request x.request_frame name x.params_range (as_id x.raw_id);
        received =
            request_received aw codec ch IoError is_utf8 sc x.request_frame x.raw_id name
              x.params_range x.decoded x.in_bounds (ap is_utf8 x.same_method ∙ utf8);
        called =
            index_range-in name.begin name.end x.request_frame x.in_bounds.4.0 x.in_bounds.4.1
            ∙ ap returns x.same_method;
        server_queue = (ch.send sq (write_msg x.answer_frame)).0;
        spent = spent;
        responded = responded;
        queued_answer = laws.send_ok sq (write_msg x.answer_frame) answer_taken;
        waiting = waiting;
        polled = polled;
        answered = answered;
        delivered =
            answer_received aw codec ch IoError is_utf8 waiting answered x.answer_frame (ids 3)
              x.errc x.payload x.answer_decoded delivered;
        woken = woken ∙ ap (λ w. task ∷ w) same;
        ends = ends;
      }
