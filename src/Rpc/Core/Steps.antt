-- ===== src/Rpc/Core/Steps.antt =====
-- The steps of a connection: what its handles, its receiver and its writing task may do, in any
-- order.
use rpc_it_rs.Base.{
  ℕ, ◌+◌, ◌-◌, ◌<◌, ◌≡◌, Bool, Option, none, some, List, [], ◌∷◌, ◌++◌, Result, Poll, returns,
}
use rpc_it_rs.Defs.{Bytes}
use rpc_it_rs.Waker.{AtomicWaker}
use rpc_it_rs.Channel.{Channel}
use rpc_it_rs.Rpc.Types.{WriterDirective}
use rpc_it_rs.Rpc.ReqRep.{
  RequestContext, Receive, Received, poll, try_recv, try_unregister, set_request_write_failed,
  mark_expired,
}
use rpc_it_rs.Rpc.WriteRunner.{with_reqs}
use rpc_it_rs.Rpc.Inbound.{Inbound}
use rpc_it_rs.Rpc.Receiver.{Failure, handle_inbound_once}
use rpc_it_rs.Rpc.Core.{Handles, Connection, tx_deferred, reqs, has_reqs}
use rpc_it_rs.Rpc.Core.HandleSteps.{
  strong, upgrade, HandleStep, NotifyCall, RequestCall, InboundCall, still_held, received,
  notify_call, request_call, inbound_call,
}

-- The effect of `Drop for Receiver`.
abbrev pub expired :
    {W : Type 0} → AtomicWaker W → Option (RequestContext W) → Option (RequestContext W)
expired aw none = none
expired aw (some c) = some (mark_expired aw c)

module _ {W Q S U Wr Rd : Type 0} where
  abbrev pub with_tx : Connection W Q S U Wr Rd → Option Q → Connection W Q S U Wr Rd
  with_tx s tx = record s { core = record s.core { t_tx_deferred = tx } }

  abbrev pub with_context :
      Connection W Q S U Wr Rd → Option (RequestContext W) → Connection W Q S U Wr Rd
  with_context s c = record s { core = record s.core { reqs = c } }

module _ {W Q S U Wr Rd : Type 0} (IoError : Type 0) (aw : AtomicWaker W)
    (ch : Channel Q WriterDirective) (is_utf8 : Bytes → Bool) where
  pub data Step (s t : Connection W Q S U Wr Rd) : Type 0 where
    handles :
        (h : Handles)
        → HandleStep (has_reqs s.core) s.handles h
        → t ≡ record s { handles = h }
        → Step s t
    notifies :
        (call : NotifyCall S) (q q' : Q)
        → 0 < s.handles.notify_senders + s.handles.request_senders
        → tx_deferred s.core ≡ returns q
        → notify_call ch s.core.codec call q ≡ returns q'
        → t ≡ with_tx s (some q')
        → Step s t
    requests :
        (call : RequestCall S) (q q' : Q) (c c' : RequestContext W)
        → 0 < s.handles.request_senders
        → tx_deferred s.core ≡ returns q
        → reqs s.core ≡ returns c
        → request_call ch s.core.codec aw call q c ≡ returns (q', c')
        → t ≡ with_context (with_tx s (some q')) (some c')
        → Step s t
    answers :
        (call : InboundCall S) (ib : Inbound) (tx : Option Q)
        → 0 < s.handles.inbounds
        → inbound_call ch s.core.codec call s.core.t_tx_deferred ib ≡ returns tx
        → t ≡ record (with_tx s tx) {
          handles = record s.handles { inbounds = still_held call s.handles.inbounds };
        }
        → Step s t
    receives :
        (ib : Bytes) (c : Option (RequestContext W))
        (r : Result (Option Inbound) (Failure IoError aw s.core.codec is_utf8))
        → 0 < s.handles.receivers + s.handles.weak_receivers
        → 0 < strong s.handles
        → handle_inbound_once IoError aw s.core.codec is_utf8 s.core.reqs ib ≡ returns (c, r)
        → t ≡ record (with_context s c) {
          handles = record s.handles { inbounds = received r s.handles.inbounds };
        }
        → Step s t
    drops_receiver :
        0 < s.handles.receivers
        → t ≡ record (with_context s (expired aw s.core.reqs)) {
          handles = record s.handles { receivers = s.handles.receivers - 1 };
        }
        → Step s t
    -- A `ReceiveResponse` is polled, or dropped.
    polls :
        (r r' : Option Receive) (task : ℕ) (c c' : RequestContext W)
        (p : Poll (Received aw s.core.codec))
        → reqs s.core ≡ returns c
        → poll aw s.core.codec c r task ≡ returns (c', r', p)
        → t ≡ with_context s (some c')
        → Step s t
    tries_recv :
        (r r' : Option Receive) (c c' : RequestContext W) (p : Received aw s.core.codec)
        → reqs s.core ≡ returns c
        → try_recv aw s.core.codec c r ≡ returns (c', r', p)
        → t ≡ with_context s (some c')
        → Step s t
    unregisters :
        (r : Option Receive) (c c' : RequestContext W)
        → reqs s.core ≡ returns c
        → try_unregister aw c r ≡ returns c'
        → t ≡ with_context s (some c')
        → Step s t
    -- The writing task receives a message, closes the channel, or calls the request context.
    takes :
        (d : WriterDirective) (ds : List WriterDirective) (q q' : Q)
        → s.core.t_tx_deferred ≡ some q
        → ch.queued q ≡ d ∷ ds
        → ch.queued q' ≡ ds
        → t ≡ record (with_tx s (some q')) {
          turns = s.turns ++ record { directive = d; upgrade = upgrade s } ∷ [];
        }
        → Step s t
    closes : (q : Q) → s.core.t_tx_deferred ≡ some q → t ≡ with_tx s (some (ch.close q)) → Step s t
    fails_request :
        (id : ℕ) (c : RequestContext W)
        → reqs s.core ≡ returns c
        → upgrade s ≡ with_reqs
        → t ≡ with_context s (some (set_request_write_failed aw c id))
        → Step s t
    expires :
        (c : RequestContext W)
        → reqs s.core ≡ returns c
        → upgrade s ≡ with_reqs
        → t ≡ with_context s (some (mark_expired aw c))
        → Step s t

  pub data Reach (s : Connection W Q S U Wr Rd) : Connection W Q S U Wr Rd → Type 0 where
    here : Reach s s
    next : {t u : Connection W Q S U Wr Rd} → Reach s t → Step t u → Reach s u
