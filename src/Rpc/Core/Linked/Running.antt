-- ===== src/Rpc/Core/Linked/Running.antt =====
-- Every step of a connection keeps the invariant.
use rpc_it_rs.Base.{
  Ensures-returns, ◌≡◌, refl, sym, subst, ◌∙◌, inl, inr, Bool, Option, none, some, All,
}
use rpc_it_rs.Defs.{Bytes}
use rpc_it_rs.Waker.{AtomicWaker}
use rpc_it_rs.Channel.{Channel, IsChannel}
use rpc_it_rs.Rpc.Types.{WriterDirective}
use rpc_it_rs.Rpc.ReqRep.{RequestContext}
use rpc_it_rs.Rpc.Core.{Connection, has_reqs, is_some}
use rpc_it_rs.Rpc.Core.HandleSteps.{HandleStep}
use rpc_it_rs.Rpc.Core.Steps.{Step, Reach, here, next, expired}
use rpc_it_rs.Rpc.Core.Linked.Queue.{NotRequest, Quiet, QuietTx, close-Quiet, notify_call-Quiet}
use rpc_it_rs.Rpc.Core.Linked.Answers.{inbound_call-Quiet}
use rpc_it_rs.Rpc.Core.Linked.Frames.{handle_inbound_once-SameReqs}
use rpc_it_rs.Rpc.Core.Linked.Invariant.{
  IsLinked, HandleStep-NoRequesters, HasReqs-append, next-Allowed, tx_deferred-some,
}

expired-has :
    {W : Type 0} (aw : AtomicWaker W) (c : Option (RequestContext W))
    → is_some (expired aw c) ≡ is_some c
expired-has aw none = refl
expired-has aw (some c) = refl

module _ {W Q S U Wr Rd : Type 0} (IoError : Type 0) (aw : AtomicWaker W)
    (ch : Channel Q WriterDirective) (is_utf8 : Bytes → Bool) (laws : IsChannel ch) where
  -- Every step keeps this.
  pub Step-IsLinked :
      (s t : Connection W Q S U Wr Rd)
      → Step IoError aw ch is_utf8 s t
      → IsLinked ch s
      → IsLinked ch t
  unfolding has_reqs
  Step-IsLinked s t (Step.handles h step e) v = subst (IsLinked ch) (sym e) (record {
    linked = elim v.linked [
      | inl has ↦ inl has
      | inr (without, none_held, quiet) ↦ inr (
        without,
        HandleStep-NoRequesters s.handles h (subst (λ b. HandleStep b s.handles h) without step)
            none_held,
        quiet,
      )
    ];
    allowed = v.allowed;
  })
  Step-IsLinked s t (Step.notifies call q q' held tx called e) v =
      subst (IsLinked ch) (sym e) (record {
        linked = elim v.linked [
          | inl has ↦ inl has
          | inr (without, none_held, quiet) ↦ inr (
            without,
            none_held,
            Ensures-returns (Quiet ch) _ q'
                (notify_call-Quiet ch laws s.core.codec call q
                  (subst (QuietTx ch) (tx_deferred-some s.core q tx) quiet))
                called,
          )
        ];
        allowed = v.allowed;
      })
  Step-IsLinked s t (Step.requests call q q' c c' held tx has called e) v =
      subst (IsLinked ch) (sym e) (record { linked = inl refl; allowed = v.allowed })
  Step-IsLinked s t (Step.answers call ib tx held called e) v =
      subst (IsLinked ch) (sym e) (record {
        linked = elim v.linked [
          | inl has ↦ inl has
          | inr (without, none_held, quiet) ↦ inr (
            without,
            none_held,
            Ensures-returns (QuietTx ch) _ tx
                (inbound_call-Quiet ch s.core.codec call s.core.t_tx_deferred ib laws quiet) called,
          )
        ];
        allowed = v.allowed;
      })
  Step-IsLinked s t (Step.receives ib c r held alive handled e) v =
      let same =
        Ensures-returns _ _ (c, r)
          (handle_inbound_once-SameReqs IoError aw s.core.codec is_utf8 s.core.reqs ib) handled in
      subst (IsLinked ch) (sym e) (record {
        linked = elim v.linked [
          | inl has ↦ inl (same ∙ has)
          | inr (without, none_held, quiet) ↦ inr (same ∙ without, none_held, quiet)
        ];
        allowed = v.allowed;
      })
  Step-IsLinked s t (Step.drops_receiver held e) v = subst (IsLinked ch) (sym e) (record {
    linked = elim v.linked [
      | inl has ↦ inl (expired-has aw s.core.reqs ∙ has)
      | inr (without, none_held, quiet) ↦
          inr (expired-has aw s.core.reqs ∙ without, none_held, quiet)
    ];
    allowed = v.allowed;
  })
  Step-IsLinked s t (Step.polls r r' task c c' p has called e) v =
      subst (IsLinked ch) (sym e) (record { linked = inl refl; allowed = v.allowed })
  Step-IsLinked s t (Step.tries_recv r r' c c' p has called e) v =
      subst (IsLinked ch) (sym e) (record { linked = inl refl; allowed = v.allowed })
  Step-IsLinked s t (Step.unregisters r c c' has called e) v =
      subst (IsLinked ch) (sym e) (record { linked = inl refl; allowed = v.allowed })
  Step-IsLinked s t (Step.takes d ds q q' tx front rest e) v = subst (IsLinked ch) (sym e) (record {
    linked = elim v.linked [
      | inl has ↦ inl has
      | inr (without, none_held, quiet) ↦ inr (
        without,
        none_held,
        subst (All NotRequest) (sym rest)
            (subst (All NotRequest) front (subst (QuietTx ch) tx quiet)).1,
      )
    ];
    allowed = HasReqs-append s.turns _ v.allowed (next-Allowed ch s d ds q tx front v);
  })
  Step-IsLinked s t (Step.closes q tx e) v = subst (IsLinked ch) (sym e) (record {
    linked = elim v.linked [
      | inl has ↦ inl has
      | inr (without, none_held, quiet) ↦
          inr (without, none_held, close-Quiet ch laws q (subst (QuietTx ch) tx quiet))
    ];
    allowed = v.allowed;
  })
  Step-IsLinked s t (Step.fails_request id c has alive e) v =
      subst (IsLinked ch) (sym e) (record { linked = inl refl; allowed = v.allowed })
  Step-IsLinked s t (Step.expires c has alive e) v =
      subst (IsLinked ch) (sym e) (record { linked = inl refl; allowed = v.allowed })

  pub Reach-IsLinked :
      (s t : Connection W Q S U Wr Rd)
      → IsLinked ch s
      → Reach IoError aw ch is_utf8 s t
      → IsLinked ch t
  Reach-IsLinked s t v here = v
  Reach-IsLinked s u v (next {t} r step) = Step-IsLinked t u step (Reach-IsLinked s t v r)
