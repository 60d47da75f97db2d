-- ===== src/Rpc/Core/Accessors.antt =====
-- What the accessors of the handles, one of them unchecked, find in the core.
use rpc_it_rs.Base.{
  Ensures-returns, ◌≡◌, refl, sym, ◌∙◌, ap, ◌⊎◌, inl, inr, Bool, true, false, Option, returns,
  panics, Option-cases, arith,
}
use rpc_it_rs.Defs.{Bytes}
use rpc_it_rs.Codec.{Codec}
use rpc_it_rs.Waker.{AtomicWaker}
use rpc_it_rs.Channel.{Channel, IsChannel}
use rpc_it_rs.Rpc.Types.{WriterDirective}
use rpc_it_rs.Rpc.ReqRep.{RequestContext}
use rpc_it_rs.Rpc.Core.{
  Builder, RpcCore, Connection, ChannelMaker, build_client, build_server, build_read_only,
  build_write_only, tx_deferred, reqs, has_reqs, is_some,
}
use rpc_it_rs.Rpc.Core.Steps.{Step, Reach, here, next}
use rpc_it_rs.Rpc.Core.Linked.Answers.{inbound_call-Keeps}
use rpc_it_rs.Rpc.Core.Linked.Invariant.{IsLinked, tx_deferred-some}
use rpc_it_rs.Rpc.Core.Linked.Running.{Reach-IsLinked}
use rpc_it_rs.Rpc.Core.Built.{
  IsMaker, Built, client, server, write_only, read_only, can_write, Built-IsLinked,
}

module _ {W Q S U Wr Rd : Type 0} (IoError : Type 0) (aw : AtomicWaker W)
    (ch : Channel Q WriterDirective) (is_utf8 : Bytes → Bool) (mk : ChannelMaker Q)
    (b : Builder Wr Rd U (Codec S)) where
  -- No step makes or removes the writer's end of the channel.
  abbrev HasTx : Bool → Option Q → Type 0
  HasTx has tx = is_some tx ≡ has

  Step-tx :
      (s t : Connection W Q S U Wr Rd) (has : Bool)
      → Step IoError aw ch is_utf8 s t
      → HasTx has s.core.t_tx_deferred
      → HasTx has t.core.t_tx_deferred
  Step-tx s t has (Step.handles h step e) v = rw e v
  Step-tx s t has (Step.notifies call q q' held tx called e) v =
      rw e (sym (ap is_some (tx_deferred-some s.core q tx)) ∙ v)
  Step-tx s t has (Step.requests call q q' c c' held tx ctx called e) v =
      rw e (sym (ap is_some (tx_deferred-some s.core q tx)) ∙ v)
  Step-tx s t has (Step.answers call ib tx held called e) v = rw e (
      Ensures-returns (HasTx has) _ tx
        (inbound_call-Keeps ch s.core.codec (HasTx has) (λ q buf h. h) (λ q buf h. h) call
          s.core.t_tx_deferred ib v)
        called)
  Step-tx s t has (Step.receives ib c r held alive handled e) v = rw e v
  Step-tx s t has (Step.drops_receiver held e) v = rw e v
  Step-tx s t has (Step.polls r r' task c c' p ctx called e) v = rw e v
  Step-tx s t has (Step.tries_recv r r' c c' p ctx called e) v = rw e v
  Step-tx s t has (Step.unregisters r c c' ctx called e) v = rw e v
  Step-tx s t has (Step.takes d ds q q' tx front rest e) v = rw e (sym (ap is_some tx) ∙ v)
  Step-tx s t has (Step.closes q tx e) v = rw e (sym (ap is_some tx) ∙ v)
  Step-tx s t has (Step.fails_request id c ctx alive e) v = rw e v
  Step-tx s t has (Step.expires c ctx alive e) v = rw e v

  Reach-tx :
      (s t : Connection W Q S U Wr Rd) (has : Bool)
      → Reach IoError aw ch is_utf8 s t
      → HasTx has s.core.t_tx_deferred
      → HasTx has t.core.t_tx_deferred
  Reach-tx s t has here v = v
  Reach-tx s u has (next {t} r step) v = Step-tx t u has step (Reach-tx s t has r v)

  Built-tx :
      (s : Connection W Q S U Wr Rd) (built : Built aw mk b s)
      → HasTx (can_write built) s.core.t_tx_deferred
  unfolding build_client build_server build_read_only build_write_only
  Built-tx s (client e) = rw e refl
  Built-tx s (server enable e) = rw e refl
  Built-tx s (write_only e) = rw e refl
  Built-tx s (read_only e) = rw e refl

  -- What the accessors of the handles find.
  abbrev pub TxFound : Bool → RpcCore W Q S U → Type 0
  TxFound true core = (q : Q) × (tx_deferred core ≡ returns q)
  TxFound false core = tx_deferred core ≡ panics

  HasTx-TxFound :
      (has : Bool) (core : RpcCore W Q S U) → HasTx has core.t_tx_deferred → TxFound has core
  unfolding tx_deferred
  HasTx-TxFound true core v = elim (Option-cases core.t_tx_deferred) [
    | inl e ↦ absurd (ground (arith, e, v))
    | inr (q, e) ↦ (q, rw (e, tx_deferred) refl)
  ]
  HasTx-TxFound false core v = elim (Option-cases core.t_tx_deferred) [
    | inl e ↦ rw (e, tx_deferred) refl
    | inr (q, e) ↦ absurd (ground (arith, e, v))
  ]

  found_reqs :
      (t : Connection W Q S U Wr Rd)
      → IsLinked ch t
      → (t.handles.request_senders ≡ 0) ⊎ ((c : RequestContext W) × (reqs t.core ≡ returns c))
  unfolding reqs has_reqs
  found_reqs t v = elim v.linked [
    | inl has ↦ elim (Option-cases t.core.reqs) [
      | inl e ↦ absurd (ground (arith, e, has))
      | inr (c, e) ↦ inr (c, rw (e, reqs) refl)
    ]
    | inr (without, held, quiet) ↦ inl held.0
  ]

  -- However its handles are used, in a connection of a client, a server or a write-only one the
  -- sender that `tx_deferred` takes unchecked is there, and in every connection the request context that
  -- `reqs` unwraps is there as long as there is a `RequestSender`; but in a read-only connection
  -- `tx_deferred` is undefined, whatever handle it is called on.
  pub accessors_of_connection :
      (s t : Connection W Q S U Wr Rd) (built : Built aw mk b s)
      → IsChannel ch
      → IsMaker ch mk
      → Reach IoError aw ch is_utf8 s t
      → TxFound (can_write built) t.core
        × ((t.handles.request_senders ≡ 0) ⊎ ((c : RequestContext W) × (reqs t.core ≡ returns c)))
  accessors_of_connection s t built laws maker reach = (
    HasTx-TxFound (can_write built) t.core
        (Reach-tx s t (can_write built) reach (Built-tx s built)),
    found_reqs t (
        Reach-IsLinked IoError aw ch is_utf8 laws s t
          (Built-IsLinked IoError aw ch is_utf8 mk b s maker built) reach),
  )
