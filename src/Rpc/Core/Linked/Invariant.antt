-- ===== src/Rpc/Core/Linked/Invariant.antt =====
-- What holds of a connection however its handles are used.
use rpc_it_rs.Base.{
  ◌≡◌, ◌≢◌, subst, ◌⊎◌, inl, inr, true, false, some, List, [], ◌∷◌, ◌++◌, All, returns, arith,
}
use rpc_it_rs.Channel.{Channel}
use rpc_it_rs.Rpc.Types.{
  WriterDirective, close_immediately, close_after_flush, flush, write_msg, write_msg_burst,
  write_req_msg,
}
use rpc_it_rs.Rpc.ReqRep.{RequestContext}
use rpc_it_rs.Rpc.WriteRunner.{Upgrade, without_reqs, Turn}
use rpc_it_rs.Rpc.WriteRunner.Transcript.{Allowed, HasReqs}
use rpc_it_rs.Rpc.Core.{RpcCore, Handles, Connection, tx_deferred, reqs, has_reqs}
use rpc_it_rs.Rpc.Core.HandleSteps.{HandleStep, upgrade}
use rpc_it_rs.Rpc.Core.Linked.Queue.{NotRequest, QuietTx}

abbrev NoRequesters : Handles → Type 0
NoRequesters h = (h.request_senders ≡ 0) × (h.weak_request_senders ≡ 0)

-- Without a request context no `RequestSender` is made.
pub HandleStep-NoRequesters :
    (h h' : Handles) → HandleStep false h h' → NoRequesters h → NoRequesters h'
HandleStep-NoRequesters h h' (HandleStep.clone_notify_sender p e) v = ground arith
HandleStep-NoRequesters h h' (HandleStep.clone_request_sender p e) v = omega arith
HandleStep-NoRequesters h h' (HandleStep.clone_inner p e) v = ground arith
HandleStep-NoRequesters h h' (HandleStep.create_notify_sender p e) v = ground arith
HandleStep-NoRequesters h h' (HandleStep.create_sender_handle p e) v = ground arith
HandleStep-NoRequesters h h' (HandleStep.take_or_clone_message p e) v = ground arith
HandleStep-NoRequesters h h' (HandleStep.try_into_request_sender p c e) v = cc
HandleStep-NoRequesters h h' (HandleStep.downgrade_notify_sender p e) v = ground arith
HandleStep-NoRequesters h h' (HandleStep.downgrade_request_sender p e) v = omega arith
HandleStep-NoRequesters h h' (HandleStep.upgrade_notify_sender p c e) v = ground arith
HandleStep-NoRequesters h h' (HandleStep.upgrade_request_sender p c e) v = omega arith
HandleStep-NoRequesters h h' (HandleStep.into_weak_runner_task p e) v = ground arith
HandleStep-NoRequesters h h' (HandleStep.drop_notify_sender p e) v = ground arith
HandleStep-NoRequesters h h' (HandleStep.drop_request_sender p e) v = ground arith

pub NotRequest-Allowed : (d : WriterDirective) (up : Upgrade) → NotRequest d → Allowed d up
NotRequest-Allowed close_immediately up n = tt
NotRequest-Allowed close_after_flush up n = tt
NotRequest-Allowed flush up n = tt
NotRequest-Allowed (write_msg payload) up n = tt
NotRequest-Allowed (write_msg_burst chunks) up n = tt
NotRequest-Allowed (write_req_msg payload id) up n = absurd n

pub reqs-Allowed : (d : WriterDirective) (up : Upgrade) → up ≢ without_reqs → Allowed d up
reqs-Allowed close_immediately up n = tt
reqs-Allowed close_after_flush up n = tt
reqs-Allowed flush up n = tt
reqs-Allowed (write_msg payload) up n = tt
reqs-Allowed (write_msg_burst chunks) up n = tt
reqs-Allowed (write_req_msg payload id) up n = n

pub HasReqs-append :
    (ts : List Turn) (t : Turn)
    → HasReqs ts
    → Allowed t.directive t.upgrade
    → HasReqs (ts ++ t ∷ [])
HasReqs-append [] t h a = (a, tt)
HasReqs-append (u ∷ ts) t h a = (h.0, HasReqs-append ts t h.1 a)

module _ {W Q S U : Type 0} where
  pub tx_deferred-some :
      (core : RpcCore W Q S U) (q : Q) → tx_deferred core ≡ returns q → core.t_tx_deferred ≡ some q
  unfolding tx_deferred
  tx_deferred-some core q e = ground arith

  pub reqs-true :
      (core : RpcCore W Q S U) (c : RequestContext W) → reqs core ≡ returns c → has_reqs core ≡ true
  unfolding reqs has_reqs
  reqs-true core c e = ground arith

-- With a request context, or with no `RequestSender` and no request in the channel; and the writing
-- task received no request that its weak handle did not allow.
pub record IsLinked {W Q S U Wr Rd : Type 0} (ch : Channel Q WriterDirective)
    (s : Connection W Q S U Wr Rd) : Type 0 where
  pub linked :
      (has_reqs s.core ≡ true)
      ⊎ ((has_reqs s.core ≡ false) × NoRequesters s.handles × QuietTx ch s.core.t_tx_deferred)
  pub allowed : HasReqs s.turns

module _ {W Q S U Wr Rd : Type 0} (ch : Channel Q WriterDirective) where
  upgrade_reqs : (s : Connection W Q S U Wr Rd) → has_reqs s.core ≡ true → upgrade s ≢ without_reqs
  unfolding upgrade
  upgrade_reqs s has = rw has (λ e. ground arith)

  -- What the writing task may be given next.
  pub next-Allowed :
      (s : Connection W Q S U Wr Rd) (d : WriterDirective) (ds : List WriterDirective) (q : Q)
      → s.core.t_tx_deferred ≡ some q
      → ch.queued q ≡ d ∷ ds
      → IsLinked ch s
      → Allowed d (upgrade s)
  unfolding upgrade
  next-Allowed s d ds q e m v = elim v.linked [
    | inl has ↦ reqs-Allowed d (upgrade s) (upgrade_reqs s has)
    | inr (without, h, quiet) ↦
        NotRequest-Allowed d (upgrade s) (subst (All NotRequest) m (subst (QuietTx ch) e quiet)).0
  ]
