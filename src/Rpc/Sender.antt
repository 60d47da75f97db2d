-- ===== src/Rpc/Sender.antt =====
-- src/rpc/sender.rs: the handles that send notifications and requests. The channel to the writer
-- task is the parameter `ch`; a function returns the channel, the buffer and the request context as
-- it leaves them. An awaited `send` is one step.
pub mod Requests
pub mod Frames
pub mod Shutdown
use rpc_it_rs.Base.{
  ℕ, zero, suc, Bool, true, false, Option, none, some, List, [], ◌∷◌, Result, ok, err, Outcome,
  returns, panics, ◌>>=◌, if◌then◌else◌,
}
use rpc_it_rs.Defs.{Bytes}
use rpc_it_rs.Codec.{Codec, EncodeError, request_id_allocation_failed}
use rpc_it_rs.Waker.{AtomicWaker}
use rpc_it_rs.Channel.{Channel, TrySendError, full, closed}
use rpc_it_rs.Rpc.Types.{
  WriterDirective, close_immediately, close_after_flush, flush, write_msg, write_msg_burst,
  write_req_msg, SendMsgError, TrySendMsgError,
}
use rpc_it_rs.Rpc.ReqRep.{RequestContext, Receive, try_allocate_new_request, try_unregister}

-- src/rpc/error.rs, `convert_deferred_write_err`.
unfoldable pub convert_deferred_write_err : TrySendError WriterDirective → Outcome TrySendMsgError
convert_deferred_write_err (closed d) = returns TrySendMsgError.channel_closed
convert_deferred_write_err (full (write_msg payload)) = returns TrySendMsgError.channel_at_capacity
convert_deferred_write_err (full (write_msg_burst chunks)) =
    returns TrySendMsgError.channel_at_capacity
convert_deferred_write_err (full (write_req_msg payload id)) =
    returns TrySendMsgError.channel_at_capacity
convert_deferred_write_err (full close_immediately) = panics
convert_deferred_write_err (full close_after_flush) = panics
convert_deferred_write_err (full flush) = panics

-- `convert_deferred_action_err`.
unfoldable pub convert_deferred_action_err : TrySendError WriterDirective → TrySendMsgError
convert_deferred_action_err (closed d) = TrySendMsgError.channel_closed
convert_deferred_action_err (full d) = TrySendMsgError.channel_at_capacity

module _ {Q : Type 0} (ch : Channel Q WriterDirective) where
  -- `NotifySender::try_send_frame`.
  unfoldable pub try_send_frame :
      Q → WriterDirective → Outcome (Q × Result (Unit {0}) TrySendMsgError)
  unfolding convert_deferred_write_err
  try_send_frame q d =
      let (q', r) = ch.try_send q d in
      elim r [
        | ok _ ↦ returns (q', ok tt)
        | err e ↦ convert_deferred_write_err e >>= λ x. returns (q', err x)
      ]

  -- `NotifySender::send_frame`.
  unfoldable pub send_frame : Q → WriterDirective → Q × Result (Unit {0}) SendMsgError
  send_frame q d =
      let (q', r) = ch.send q d in
      elim r [ ok _ ↦ (q', ok tt) | err e ↦ (q', err SendMsgError.channel_closed) ]

  -- `try_shutdown_writer`.
  unfoldable pub try_shutdown_writer : Q → Bool → Q × Result (Unit {0}) TrySendMsgError
  unfolding convert_deferred_action_err
  try_shutdown_writer q drop_after_this =
      let (q', r) =
        ch.try_send q (if drop_after_this then close_immediately else close_after_flush) in
      elim r [ ok _ ↦ (ch.close q', ok tt) | err e ↦ (q', err (convert_deferred_action_err e)) ]

  -- `shutdown_writer`.
  unfoldable pub shutdown_writer : Q → Bool → Q × Result (Unit {0}) TrySendMsgError
  shutdown_writer q discard_unsent =
      let (q', r) = ch.send q (if discard_unsent then close_immediately else close_after_flush) in
      elim r [ ok _ ↦ (ch.close q', ok tt) | err e ↦ (q', err TrySendMsgError.channel_closed) ]

  -- `try_flush_writer` and `flush_writer`.
  unfoldable pub try_flush_writer : Q → Q × Result (Unit {0}) TrySendMsgError
  unfolding convert_deferred_action_err
  try_flush_writer q =
      let (q', r) = ch.try_send q flush in
      elim r [ ok _ ↦ (q', ok tt) | err e ↦ (q', err (convert_deferred_action_err e)) ]

  unfoldable pub flush_writer : Q → Q × Result (Unit {0}) TrySendMsgError
  flush_writer q =
      let (q', r) = ch.send q flush in
      elim r [ ok _ ↦ (q', ok tt) | err e ↦ (q', err TrySendMsgError.channel_closed) ]

module _ {Q P : Type 0} (ch : Channel Q WriterDirective) (codec : Codec P) where
  -- `send_notify`, from the channel and the buffer.
  unfoldable pub send_notify : Q → Bytes → Bytes → P → Q × Bytes × Result (Unit {0}) SendMsgError
  unfolding send_frame
  send_notify q buf method params =
      let (buf', r) = codec.encode_notify method params [] in
      elim r [
        | err e ↦ (q, buf', err (SendMsgError.encode_failed e))
        | ok _ ↦ let (q', r') = send_frame ch q (write_msg buf') in (q', [], r')
      ]

  -- `try_send_notify`.
  unfoldable pub try_send_notify :
      Q → Bytes → Bytes → P → Outcome (Q × Bytes × Result (Unit {0}) TrySendMsgError)
  unfolding try_send_frame
  try_send_notify q buf method params =
      let (buf', r) = codec.encode_notify method params [] in
      elim r [
        | err e ↦ returns (q, buf', err (TrySendMsgError.encode_failed e))
        | ok _ ↦ try_send_frame ch q (write_msg buf') >>= λ s. returns (s.0, [], s.1)
      ]

module _ {W P : Type 0} (aw : AtomicWaker W) (codec : Codec P) where
  -- The context and the buffer, and what `encode_request` returns.
  abbrev pub Encoded : Type 0
  Encoded = RequestContext W × Bytes × Option (Result Receive EncodeError)

  -- Behind `try_allocate_new_request`: the handle, or another round.
  unfoldable pub after_allocate :
      (RequestContext W → Bytes → Encoded) → Bytes → RequestContext W × Option Receive → Encoded
  after_allocate again buf (c, some wait_obj) = (c, buf, some (ok wait_obj))
  after_allocate again buf (c, none) = again c buf

  -- Behind `codec().encode_request`.
  unfoldable pub after_encode :
      (RequestContext W → Bytes → Encoded)
      → RequestContext W
      → Bytes × Result ℕ EncodeError
      → Encoded
  unfolding after_allocate
  after_encode again c (buf, err e) = (c, buf, some (err e))
  after_encode again c (buf, ok id) = after_allocate again buf (try_allocate_new_request aw c id)

  -- The rounds of the loop that are left; `ids` are the random numbers that they draw. The buffer is
  -- not cleared between rounds.
  unfoldable pub encode_rounds : ℕ → (ℕ → ℕ) → RequestContext W → Bytes → Bytes → P → Encoded
  unfolding after_encode
  encode_rounds zero ids c buf method params = (c, buf, some (err request_id_allocation_failed))
  encode_rounds (suc left) ids c buf method params =
      if c.expired
      then (c, buf, none)
      else after_encode (λ c' buf'. encode_rounds left ids c' buf' method params) c
          (codec.encode_request (ids left) method params buf)

  -- `RequestSender::encode_request`; `MAX_RETRY_HEURISTIC` is 4.
  unfoldable pub encode_request : (ℕ → ℕ) → RequestContext W → Bytes → Bytes → P → Encoded
  unfolding encode_rounds
  encode_request ids c buf method params = encode_rounds 4 ids c [] method params

module _ {Q W P : Type 0} (ch : Channel Q WriterDirective) (aw : AtomicWaker W)
    (codec : Codec P) where
  -- The channel, the context, the buffer, and the result.
  abbrev pub Sent : Type 0 → Type 0
  Sent X = Q × RequestContext W × Bytes × Result Receive X

  -- Behind the encoding of `try_send_request`. Where the frame is not sent the handle is dropped.
  unfoldable pub try_send_encoded : Q → Encoded aw codec → Outcome (Sent TrySendMsgError)
  unfolding try_send_frame
  try_send_encoded q (c, buf, none) = returns (q, c, buf, err TrySendMsgError.receiver_expired)
  try_send_encoded q (c, buf, some (err e)) =
      returns (q, c, buf, err (TrySendMsgError.encode_failed e))
  try_send_encoded q (c, buf, some (ok resp)) = do
    (q', r) ← try_send_frame ch q (write_req_msg buf resp.request_id)
    elim r [
      | ok _ ↦ returns (q', c, [], ok resp)
      | err e ↦ try_unregister aw c (some resp) >>= λ c'. returns (q', c', [], err e)
    ]

  unfoldable pub try_send_request :
      (ℕ → ℕ) → Q → RequestContext W → Bytes → Bytes → P → Outcome (Sent TrySendMsgError)
  unfolding try_send_encoded
  try_send_request ids q c buf method params =
      try_send_encoded q (encode_request aw codec ids c buf method params)

  -- Behind the encoding of `send_request`.
  unfoldable pub send_encoded : Q → Encoded aw codec → Outcome (Sent SendMsgError)
  unfolding send_frame
  send_encoded q (c, buf, none) = returns (q, c, buf, err SendMsgError.receiver_expired)
  send_encoded q (c, buf, some (err e)) = returns (q, c, buf, err (SendMsgError.encode_failed e))
  send_encoded q (c, buf, some (ok resp)) =
      let (q', r) = send_frame ch q (write_req_msg buf resp.request_id) in
      elim r [
        | ok _ ↦ returns (q', c, [], ok resp)
        | err e ↦ try_unregister aw c (some resp) >>= λ c'. returns (q', c', [], err e)
      ]

  unfoldable pub send_request :
      (ℕ → ℕ) → Q → RequestContext W → Bytes → Bytes → P → Outcome (Sent SendMsgError)
  unfolding send_encoded
  send_request ids q c buf method params =
      send_encoded q (encode_request aw codec ids c buf method params)
