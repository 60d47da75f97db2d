-- ===== src/Rpc/Core/HandleSteps.antt =====
-- How handles are made from others and dropped, and the calls of theirs that reach the channel.
use rpc_it_rs.Base.{
  ℕ, suc, ◌+◌, ◌-◌, ◌<◌, ◌≡◌, Bool, true, Option, none, some, Result, ok, err, Outcome, returns,
  ◌>>=◌, ◌&&◌, ltb, if◌then◌else◌,
}
use rpc_it_rs.Defs.{Bytes}
use rpc_it_rs.Codec.{Codec}
use rpc_it_rs.Waker.{AtomicWaker}
use rpc_it_rs.Channel.{Channel}
use rpc_it_rs.Rpc.Types.{WriterDirective}
use rpc_it_rs.Rpc.ReqRep.{RequestContext}
use rpc_it_rs.Rpc.WriteRunner.{Upgrade, dropped, without_reqs, with_reqs}
use rpc_it_rs.Rpc.Sender
use rpc_it_rs.Rpc.Burst
use rpc_it_rs.Rpc.Burst.{PacketWriteBurst, send_burst}
use rpc_it_rs.Rpc.Inbound.{Inbound, ResponsePayload, response, try_response, drop_inbound}
use rpc_it_rs.Rpc.Core.{Handles, Connection, has_reqs}

abbrev pub strong : Handles → ℕ
strong h = h.receivers + h.inbounds + h.notify_senders + h.request_senders

-- `w_ctx.upgrade()` in the writing task.
unfoldable pub upgrade : {W Q S U Wr Rd : Type 0} → Connection W Q S U Wr Rd → Upgrade
unfolding has_reqs
upgrade s =
    if s.linked && ltb 0 (strong s.handles)
    then (if has_reqs s.core then with_reqs else without_reqs)
    else dropped

-- The handles that are made from others or dropped without an effect. `can` tells whether the core
-- has a request context.
pub data HandleStep (can : Bool) (h h' : Handles) : Type 0 where
  clone_notify_sender :
      0 < h.notify_senders
      → h' ≡ record h { notify_senders = suc h.notify_senders }
      → HandleStep can h h'
  clone_request_sender :
      0 < h.request_senders
      → h' ≡ record h { request_senders = suc h.request_senders }
      → HandleStep can h h'
  clone_inner :
      0 < h.request_senders
      → h' ≡ record h { notify_senders = suc h.notify_senders }
      → HandleStep can h h'
  create_notify_sender :
      0 < h.receivers
      → h' ≡ record h { notify_senders = suc h.notify_senders }
      → HandleStep can h h'
  create_sender_handle :
      0 < h.inbounds → h' ≡ record h { notify_senders = suc h.notify_senders } → HandleStep can h h'
  take_or_clone_message :
      0 < h.inbounds → h' ≡ record h { inbounds = suc h.inbounds } → HandleStep can h h'
  try_into_request_sender :
      0 < h.notify_senders
      → can ≡ true
      → h' ≡ record h {
        notify_senders = h.notify_senders - 1;
        request_senders = suc h.request_senders;
      }
      → HandleStep can h h'
  downgrade_notify_sender :
      0 < h.notify_senders
      → h' ≡ record h { weak_notify_senders = suc h.weak_notify_senders }
      → HandleStep can h h'
  downgrade_request_sender :
      0 < h.request_senders
      → h' ≡ record h { weak_request_senders = suc h.weak_request_senders }
      → HandleStep can h h'
  upgrade_notify_sender :
      0 < h.weak_notify_senders
      → 0 < strong h
      → h' ≡ record h { notify_senders = suc h.notify_senders }
      → HandleStep can h h'
  upgrade_request_sender :
      0 < h.weak_request_senders
      → 0 < strong h
      → h' ≡ record h { request_senders = suc h.request_senders }
      → HandleStep can h h'
  into_weak_runner_task :
      0 < h.receivers
      → h' ≡ record h { receivers = h.receivers - 1; weak_receivers = suc h.weak_receivers }
      → HandleStep can h h'
  drop_notify_sender :
      0 < h.notify_senders
      → h' ≡ record h { notify_senders = h.notify_senders - 1 }
      → HandleStep can h h'
  drop_request_sender :
      0 < h.request_senders
      → h' ≡ record h { request_senders = h.request_senders - 1 }
      → HandleStep can h h'

-- The calls of a `NotifySender`, of a `RequestSender` and of an `Inbound` that reach the channel. The
-- code takes the channel from the core only behind the encoding, or the choice of a burst; a call
-- that fails before leaves the connection as it is.
pub data NotifyCall (S : Type 0) : Type 0 where
  send_notify try_send_notify : (buf method : Bytes) (params : S) → NotifyCall S
  burst try_burst : PacketWriteBurst → NotifyCall S
  shutdown_writer try_shutdown_writer : Bool → NotifyCall S
  flush_writer try_flush_writer : NotifyCall S

pub data RequestCall (S : Type 0) : Type 0 where
  send_request try_send_request : (ids : ℕ → ℕ) (buf method : Bytes) (params : S) → RequestCall S

pub data InboundCall (S : Type 0) : Type 0 where
  respond try_respond : Bytes → ResponsePayload S → InboundCall S
  drop : InboundCall S

abbrev pub still_held : {S : Type 0} → InboundCall S → ℕ → ℕ
still_held drop n = n - 1
still_held (respond buf payload) n = n
still_held (try_respond buf payload) n = n

-- The handles that a handled frame adds.
abbrev pub received : {E : Type 0} → Result (Option Inbound) E → ℕ → ℕ
received (ok (some ib)) n = suc n
received (ok none) n = n
received (err e) n = n

module _ {Q S : Type 0} (ch : Channel Q WriterDirective) (codec : Codec S) where
  unfoldable pub notify_call : NotifyCall S → Q → Outcome Q
  notify_call (send_notify buf method params) q =
      returns (Sender.send_notify ch codec q buf method params).0
  notify_call (try_send_notify buf method params) q =
      Sender.try_send_notify ch codec q buf method params >>= λ r. returns r.0
  notify_call (burst b) q = returns (send_burst ch q codec.codec_reusability_id b).0
  notify_call (try_burst b) q =
      Burst.try_burst ch q codec.codec_reusability_id b >>= λ r. returns r.0
  notify_call (shutdown_writer discard) q = returns (Sender.shutdown_writer ch q discard).0
  notify_call (try_shutdown_writer discard) q = returns (Sender.try_shutdown_writer ch q discard).0
  notify_call flush_writer q = returns (Sender.flush_writer ch q).0
  notify_call try_flush_writer q = returns (Sender.try_flush_writer ch q).0

  unfoldable pub inbound_call : InboundCall S → Option Q → Inbound → Outcome (Option Q)
  inbound_call (respond buf payload) tx ib =
      response ch codec tx ib buf payload >>= λ r. returns r.0
  inbound_call (try_respond buf payload) tx ib =
      try_response ch codec tx ib buf payload >>= λ r. returns r.0
  inbound_call drop tx ib = drop_inbound ch codec tx ib >>= λ r. returns r.0

module _ {W Q S : Type 0} (ch : Channel Q WriterDirective) (codec : Codec S) where
  unfoldable pub request_call :
      AtomicWaker W → RequestCall S → Q → RequestContext W → Outcome (Q × RequestContext W)
  request_call aw (send_request ids buf method params) q c =
      Sender.send_request ch aw codec ids q c buf method params >>= λ r. returns (r.0, r.1)
  request_call aw (try_send_request ids buf method params) q c =
      Sender.try_send_request ch aw codec ids q c buf method params >>= λ r. returns (r.0, r.1)
