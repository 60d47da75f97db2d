-- ===== src/Rpc/Receiver.antt =====
-- src/rpc/receiver.rs, the receiver: a frame is decoded and goes to the pending requests or to the
-- caller. The frames that `AsyncFrameRead::next` yields are a list, whose end is the end of the file.
pub mod Frame
pub mod Forwarding
pub mod Expires
use rpc_it_rs.Base.{
  ℕ, zero, suc, Bool, true, false, Option, none, some, List, [], ◌∷◌, ◌++◌, Result, ok, err,
  Outcome, returns, panics, ◌>>=◌, ◌==◌, if◌then◌else◌,
}
use rpc_it_rs.Defs.{Bytes, RangeType, NonZeroRangeType}
use rpc_it_rs.Codec.{Codec, DecodeError, ResponseError, InboundFrameType, request, notify, response}
use rpc_it_rs.Waker.{AtomicWaker}
use rpc_it_rs.Channel.{Channel}
use rpc_it_rs.Rpc.Types.{Response, ErrorResponse, ReadRunnerExitType}
use rpc_it_rs.Rpc.ReqRep.{RequestContext, make_response, set_response, mark_expired}
use rpc_it_rs.Rpc.Inbound.{Inbound, new_request, new_notify, method_bytes}

-- `rx_inner::Error`, over the codec `C` and `std::io::Error`. `Utf8Error` is left out.
pub data ReceiveError (C IoError : Type 0) : Type 0 where
  eof : ReceiveError C IoError
  io_error : IoError → ReceiveError C IoError
  decode_failed : DecodeError → Bytes → ReceiveError C IoError
  unhandled_response : Result (Response C) (ErrorResponse C) → ReceiveError C IoError
  non_utf8_method_name : Bytes → RangeType → ReceiveError C IoError

unfoldable pub is_eof : {C IoError : Type 0} → ReceiveError C IoError → Bool
is_eof eof = true
is_eof (io_error e) = true
is_eof (decode_failed e ib) = false
is_eof (unhandled_response r) = false
is_eof (non_utf8_method_name ib r) = false

-- `is_utf8` is `std::str::from_utf8(..).is_ok()`.
module _ {W S : Type 0} (IoError : Type 0) (aw : AtomicWaker W) (codec : Codec S)
    (is_utf8 : Bytes → Bool) where
  abbrev pub Failure : Type 0
  Failure = ReceiveError (Codec S) IoError

  -- The request context, which a core of notifications lacks, and the result.
  abbrev pub Handled : Type 0
  Handled = Option (RequestContext W) × Result (Option Inbound) Failure

  -- The check of the method's name.
  unfoldable pub check_method : Option (RequestContext W) → Inbound → Outcome Handled
  unfolding method_bytes
  check_method reqs inbound = do
    name ← method_bytes inbound
    returns (
      reqs,
      (if is_utf8 name
          then ok (some inbound)
          else err (non_utf8_method_name inbound.buffer inbound.method)),
    )

  -- The arm for a response.
  unfoldable pub handle_response :
      Option (RequestContext W) → Bytes → ℕ → Option ResponseError → RangeType → Handled
  unfolding set_response make_response
  handle_response none ib req_id errc payload =
      (none, err (unhandled_response (make_response codec ib payload errc)))
  handle_response (some reqs) ib req_id errc payload =
      let (reqs', r) = set_response aw reqs req_id ib payload errc in
      elim r [
        | err ib' ↦ (some reqs', err (unhandled_response (make_response codec ib' payload errc)))
        | ok _ ↦ (some reqs', ok none)
      ]

  -- The match on the frame.
  unfoldable pub handle_frame :
      Option (RequestContext W) → Bytes → InboundFrameType → Outcome Handled
  unfolding check_method handle_response new_request new_notify
  handle_frame reqs ib (request raw_request_id method params) =
      if raw_request_id.end == 0
      then panics
      else check_method reqs (
          new_request ib method params
            (record { begin = raw_request_id.begin; end = raw_request_id.end }))
  handle_frame reqs ib (notify method params) = check_method reqs (new_notify ib method params)
  handle_frame reqs ib (response req_id errc payload) =
      returns (handle_response reqs ib req_id errc payload)

  -- `rx_inner::handle_inbound_once`, called with an empty scratch buffer.
  unfoldable pub handle_inbound_once : Option (RequestContext W) → Bytes → Outcome Handled
  unfolding handle_frame
  handle_inbound_once reqs ib =
      let (_, ib', r) = codec.decode_inbound [] ib in
      elim r [
        | err e ↦ returns (reqs, err (decode_failed e ib'))
        | ok frame ↦ handle_frame reqs ib' frame
      ]

  abbrev pub Read : Type 0
  Read = List (Result Bytes IoError)

  -- Behind `handle_inbound_once` in the loop of `recv`.
  unfoldable pub recv_next :
      (Option (RequestContext W)
        → Outcome (Read × Option (RequestContext W) × Result Inbound Failure))
      → Read
      → Handled
      → Outcome (Read × Option (RequestContext W) × Result Inbound Failure)
  recv_next again read (reqs, err e) = returns (read, reqs, err e)
  recv_next again read (reqs, ok (some rx)) = returns (read, reqs, ok rx)
  recv_next again read (reqs, ok none) = again reqs

  -- `Receiver::recv`.
  unfoldable pub recv :
      Read
      → Option (RequestContext W)
      → Outcome (Read × Option (RequestContext W) × Result Inbound Failure)
  unfolding handle_inbound_once recv_next
  recv [] reqs = returns ([], reqs, err eof)
  recv (err e ∷ read) reqs = returns (read, reqs, err (io_error e))
  recv (ok ib ∷ read) reqs = do
    handled ← handle_inbound_once reqs ib
    recv_next (λ reqs'. recv read reqs') read handled

  -- Whether `msg` ends the task of `split_recv_task`.
  unfoldable pub ends : Result Inbound Failure → Bool
  unfolding is_eof
  ends (ok ib) = false
  ends (err e) = is_eof e

  -- The loop of `split_recv_task`, on fuel; `none` is a loop out of fuel.
  unfoldable pub split_recv_task :
      {T : Type 0}
      → Channel T (Result Inbound Failure)
      → ℕ
      → Read
      → Option (RequestContext W)
      → T
      → Outcome (Option (Option (RequestContext W) × T))
  unfolding recv ends
  split_recv_task ch zero read reqs tx = returns none
  split_recv_task ch (suc fuel) read reqs tx = do
    (read', reqs', msg) ← recv read reqs
    elim (ch.send tx msg).1 [
      | err _ ↦ returns (some (reqs', (ch.send tx msg).0))
      | ok _ ↦
          let rest = split_recv_task ch fuel read' reqs' (ch.send tx msg).0 in
          if ends msg then returns (some (reqs', (ch.send tx msg).0)) else rest
    ]

-- `Drop for Receiver`; `into_weak_runner_task` takes the core, so that there is none to see.
unfoldable pub drop_receiver :
    {W : Type 0}
    → AtomicWaker W
    → Option (Option (RequestContext W))
    → Option (Option (RequestContext W))
unfolding mark_expired
drop_receiver aw none = none
drop_receiver aw (some none) = some none
drop_receiver aw (some (some reqs)) = some (some (mark_expired aw reqs))
