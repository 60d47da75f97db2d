-- ===== src/Rpc/Core/Dropping.antt =====
-- src/rpc/core.rs, `Drop for RpcCore`, and src/rpc/receiver.rs, the branch of `into_weak_runner_task`
-- that waits until all handles are dropped.
use rpc_it_rs.Base.{ℕ, ◌≡◌, refl, ◌∙◌, Option, Bool, Poll, pending, ready, ltb, if◌then◌else◌}
use rpc_it_rs.Defs.{Bytes}
use rpc_it_rs.Waker.{AtomicWaker}
use rpc_it_rs.Channel.{Channel}
use rpc_it_rs.Rpc.Types.{WriterDirective}
use rpc_it_rs.Rpc.Core.{Connection, RpcCore}
use rpc_it_rs.Rpc.Core.HandleSteps.{strong}
use rpc_it_rs.Rpc.Core.Steps.{Step, Reach, here, next}

-- `RpcCore::drop`: the waker's cell, and the task that is woken.
unfoldable pub drop_core : {W Q S U : Type 0} → AtomicWaker W → RpcCore W Q S U → W × Option ℕ
drop_core aw core = aw.take core.r_wake_on_drop

-- `RpcCore::register_wake_on_drop`.
unfoldable pub register_wake_on_drop :
    {W Q S U : Type 0} → AtomicWaker W → RpcCore W Q S U → ℕ → RpcCore W Q S U
register_wake_on_drop aw core waker = record core {
  r_wake_on_drop = aw.register core.r_wake_on_drop waker;
}

-- The closure of `task_signal_all_handle_dropped`, polled from `task`.
unfoldable pub poll_all_dropped :
    {W Q S U Wr Rd : Type 0}
    → AtomicWaker W
    → Connection W Q S U Wr Rd
    → ℕ
    → Connection W Q S U Wr Rd × Poll (Unit {0})
unfolding register_wake_on_drop
poll_all_dropped aw s task =
    if ltb 0 (strong s.handles)
    then (record s { core = register_wake_on_drop aw s.core task }, pending)
    else (s, ready tt)

module _ {W Q S U Wr Rd : Type 0} (IoError : Type 0) (aw : AtomicWaker W)
    (ch : Channel Q WriterDirective) (is_utf8 : Bytes → Bool) where
  Step-wake_on_drop :
      (s t : Connection W Q S U Wr Rd)
      → Step IoError aw ch is_utf8 s t
      → t.core.r_wake_on_drop ≡ s.core.r_wake_on_drop
  Step-wake_on_drop s t (Step.handles h step e) = rw e refl
  Step-wake_on_drop s t (Step.notifies call q q' held tx called e) = rw e refl
  Step-wake_on_drop s t (Step.requests call q q' c c' held tx ctx called e) = rw e refl
  Step-wake_on_drop s t (Step.answers call ib tx held called e) = rw e refl
  Step-wake_on_drop s t (Step.receives ib c r held alive handled e) = rw e refl
  Step-wake_on_drop s t (Step.drops_receiver held e) = rw e refl
  Step-wake_on_drop s t (Step.polls r r' task c c' p ctx called e) = rw e refl
  Step-wake_on_drop s t (Step.tries_recv r r' c c' p ctx called e) = rw e refl
  Step-wake_on_drop s t (Step.unregisters r c c' ctx called e) = rw e refl
  Step-wake_on_drop s t (Step.takes d ds q q' tx front rest e) = rw e refl
  Step-wake_on_drop s t (Step.closes q tx e) = rw e refl
  Step-wake_on_drop s t (Step.fails_request id c ctx alive e) = rw e refl
  Step-wake_on_drop s t (Step.expires c ctx alive e) = rw e refl

  pub Reach-wake_on_drop :
      (s t : Connection W Q S U Wr Rd)
      → Reach IoError aw ch is_utf8 s t
      → t.core.r_wake_on_drop ≡ s.core.r_wake_on_drop
  Reach-wake_on_drop s t here = refl
  Reach-wake_on_drop s u (next {t} r step) = Step-wake_on_drop t u step ∙ Reach-wake_on_drop s t r
