-- ===== src/Rpc/Core/WeakTask.antt =====
-- src/rpc/receiver.rs, `into_weak_runner_task`: its two branches and the `select!` of them, poll by
-- poll. One poll finds the frames that can be read without waiting, and may find the end of the file
-- behind them; the handles are not dropped by others meanwhile.
pub mod Waiting
pub mod Ending
use rpc_it_rs.Base.{
  ℕ, suc, ◌+◌, Bool, true, false, Option, none, some, List, [], ◌∷◌, ◌++◌, Result, ok, err, Poll,
  pending, ready, Outcome, returns, panics, ◌-◌, ◌>>=◌, ltb, if◌then◌else◌,
}
use rpc_it_rs.Defs.{Bytes}
use rpc_it_rs.Codec.{Codec}
use rpc_it_rs.Waker.{AtomicWaker}
use rpc_it_rs.Rpc.Types.{ReadRunnerExitType}
use rpc_it_rs.Rpc.ReqRep.{RequestContext}
use rpc_it_rs.Rpc.Inbound.{Inbound}
use rpc_it_rs.Rpc.Receiver.{Failure, handle_inbound_once, drop_receiver}
use rpc_it_rs.Rpc.Core.{Connection}
use rpc_it_rs.Rpc.Core.HandleSteps.{strong}
use rpc_it_rs.Rpc.Core.Steps.{with_context}
use rpc_it_rs.Rpc.Core.Dropping.{poll_all_dropped}

module _ {W S : Type 0} (IoError : Type 0) (aw : AtomicWaker W) (codec : Codec S)
    (is_utf8 : Bytes → Bool) where
  -- The arguments of the calls of `on_inbound`.
  abbrev pub Calls : Type 0
  Calls = List (Result Inbound (Failure IoError aw codec is_utf8))

  abbrev pub Exit : Type 0
  Exit = Result ReadRunnerExitType IoError

  -- Behind `handle_inbound_once` in the loop.
  abbrev report : Result (Option Inbound) (Failure IoError aw codec is_utf8) → Calls → Calls
  report (ok none) calls = calls
  report (ok (some ib)) calls = calls ++ ok ib ∷ []
  report (err e) calls = calls ++ err e ∷ []

  -- The inbound messages among the calls, each of which holds the core.
  abbrev pub messages : Calls → ℕ
  messages [] = 0
  messages (ok ib ∷ calls) = suc (messages calls)
  messages (err e ∷ calls) = messages calls

  -- A poll of `task_receive_loop`; `ended` tells whether the end of the file is behind the frames.
  unfoldable pub poll_receive_loop :
      Bool
      → List (Result Bytes IoError)
      → Bool
      → Option (RequestContext W)
      → Calls
      → Outcome (Option (RequestContext W) × Calls × Poll Exit)
  unfolding handle_inbound_once
  poll_receive_loop alive [] true reqs calls =
      returns (reqs, calls, ready (ok ReadRunnerExitType.eof))
  poll_receive_loop alive [] false reqs calls = returns (reqs, calls, pending)
  poll_receive_loop alive (err e ∷ reads) ended reqs calls = returns (reqs, calls, ready (err e))
  poll_receive_loop false (ok ib ∷ reads) ended reqs calls =
      returns (reqs, calls, ready (ok ReadRunnerExitType.all_handle_dropped))
  poll_receive_loop true (ok ib ∷ reads) ended reqs calls = do
    (reqs', r) ← handle_inbound_once IoError aw codec is_utf8 reqs ib
    poll_receive_loop true reads ended reqs' (report r calls)

module _ {W Q S U Wr Rd : Type 0} (IoError : Type 0) (aw : AtomicWaker W)
    (is_utf8 : Bytes → Bool) where
  -- The connection, what was called of `on_inbound`, and whether the task has ended.
  abbrev pub Polled : Connection W Q S U Wr Rd → Type 0
  Polled s =
      Connection W Q S U Wr Rd
      × Calls IoError aw s.core.codec is_utf8
      × Poll (Exit IoError aw s.core.codec is_utf8)

  -- The connection behind a poll of the loop.
  abbrev pub behind_loop :
      (s : Connection W Q S U Wr Rd)
      → Option (RequestContext W)
      → Calls IoError aw s.core.codec is_utf8
      → Connection W Q S U Wr Rd
  behind_loop s reqs calls = record (with_context s reqs) {
    handles = record s.handles {
      inbounds = messages IoError aw s.core.codec is_utf8 calls + s.handles.inbounds;
    };
  }

  -- The other branch is polled where the loop is pending.
  abbrev pub then_signal :
      (s : Connection W Q S U Wr Rd)
      → ℕ
      → Option (RequestContext W)
        × Calls IoError aw s.core.codec is_utf8
        × Poll (Exit IoError aw s.core.codec is_utf8)
      → Polled s
  then_signal s task (reqs, calls, ready exit) = (behind_loop s reqs calls, calls, ready exit)
  then_signal s task (reqs, calls, pending) =
      let (t, p) = poll_all_dropped aw (behind_loop s reqs calls) task in
      elim p [
        | ready _ ↦ (t, calls, ready (ok ReadRunnerExitType.all_handle_dropped))
        | pending ↦ (t, calls, pending)
      ]

  -- A poll of the `select!`, which chooses the branch that it polls first.
  unfoldable pub poll_weak_task :
      Bool
      → List (Result Bytes IoError)
      → Bool
      → (s : Connection W Q S U Wr Rd) → ℕ
      → Outcome (Polled s)
  unfolding poll_receive_loop poll_all_dropped
  poll_weak_task true reads ended s task =
      poll_receive_loop IoError aw s.core.codec is_utf8 (ltb 0 (strong s.handles)) reads ended
        s.core.reqs []
      >>= λ r. returns (then_signal s task r)
  poll_weak_task false reads ended s task =
      let (t, p) = poll_all_dropped aw s task in
      elim p [
        | ready _ ↦ returns (t, [], ready (ok ReadRunnerExitType.all_handle_dropped))
        | pending ↦
            poll_receive_loop IoError aw s.core.codec is_utf8 (ltb 0 (strong s.handles)) reads ended
              s.core.reqs []
            >>= λ (reqs, calls, p). returns (behind_loop t reqs calls, calls, p)
      ]

-- `self.core.take().unwrap()`: what was taken, and what stays in `self.core`.
abbrev pub take_core : {A : Type 0} → Option A → Outcome (A × Option A)
take_core none = panics
take_core (some core) = returns (core, none)

module _ {W Q S U Wr Rd : Type 0} (IoError : Type 0) (aw : AtomicWaker W)
    (is_utf8 : Bytes → Bool) where
  -- The start of `into_weak_runner_task`, with `own` for `self.core`, which holds the core or does
  -- not: the core that was taken is kept as a weak pointer.
  unfoldable pub start_weak_task :
      Option (Unit {0})
      → Connection W Q S U Wr Rd
      → Outcome (Connection W Q S U Wr Rd × Option (Unit {0}))
  start_weak_task own s = take_core own >>= λ (_, left). returns (
    record s {
      handles = record s.handles {
        receivers = s.handles.receivers - 1;
        weak_receivers = suc s.handles.weak_receivers;
      };
    },
    left,
  )

  -- What `Drop for Receiver` finds in `self.core`.
  abbrev own_core :
      Option (Unit {0}) → Connection W Q S U Wr Rd → Option (Option (RequestContext W))
  own_core none s = none
  own_core (some _) s = some s.core.reqs

  abbrev after_drop :
      Connection W Q S U Wr Rd → Option (Option (RequestContext W)) → Connection W Q S U Wr Rd
  after_drop s none = s
  after_drop s (some reqs) = with_context s reqs

  -- The receiver, which the task owns, is dropped with it.
  unfoldable pub drop_self : Option (Unit {0}) → Connection W Q S U Wr Rd → Connection W Q S U Wr Rd
  unfolding drop_receiver
  drop_self own s =
      let t = after_drop s (drop_receiver aw (own_core own s)) in
      record t { handles = record t.handles { weak_receivers = t.handles.weak_receivers - 1 } }

  abbrev pub settle :
      (s : Connection W Q S U Wr Rd)
      → Option (Unit {0})
      → Polled IoError aw is_utf8 s
      → Polled IoError aw is_utf8 s
  settle s own (t, calls, pending) = (t, calls, pending)
  settle s own (t, calls, ready exit) = (drop_self own t, calls, ready exit)

  -- A poll of the task that was started, to its end with the drop of the receiver.
  unfoldable pub poll_runner_task :
      Option (Unit {0})
      → Bool
      → List (Result Bytes IoError)
      → Bool
      → (s : Connection W Q S U Wr Rd) → ℕ
      → Outcome (Polled IoError aw is_utf8 s)
  unfolding poll_weak_task drop_self
  poll_runner_task own first reads ended s task =
      poll_weak_task IoError aw is_utf8 first reads ended s task >>= λ r. returns (settle s own r)
