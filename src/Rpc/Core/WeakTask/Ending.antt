-- ===== src/Rpc/Core/WeakTask/Ending.antt =====
-- The task of `into_weak_runner_task` and the drop of the last handle.
use rpc_it_rs.Base.{
  ℕ, ◌+◌, ◌≡◌, refl, ap, ◌∙◌, inl, inr, Bool, true, false, Option, some, List, [], ◌∷◌, Result, ok,
  err, Poll, pending, ready, Outcome, returns, Ensures, Ensures-bind, Ensures-any, Ensures-returns,
  ltb, Bool-cases, arith,
}
use rpc_it_rs.Defs.{Bytes}
use rpc_it_rs.Waker.{AtomicWaker, IsAtomicWaker}
use rpc_it_rs.Channel.{Channel}
use rpc_it_rs.Rpc.Types.{WriterDirective, ReadRunnerExitType}
use rpc_it_rs.Rpc.ReqRep.{RequestContext}
use rpc_it_rs.Rpc.Core.{Connection}
use rpc_it_rs.Rpc.Core.HandleSteps.{strong}
use rpc_it_rs.Rpc.Core.Steps.{Reach}
use rpc_it_rs.Rpc.Core.Dropping.{
  drop_core, poll_all_dropped, register_wake_on_drop, Reach-wake_on_drop,
}
use rpc_it_rs.Rpc.Core.WeakTask.{
  Calls, Exit, Polled, behind_loop, then_signal, poll_receive_loop, poll_weak_task,
}

module _ {W Q S U Wr Rd : Type 0} (IoError : Type 0) (aw : AtomicWaker W)
    (is_utf8 : Bytes → Bool) where
  -- A pending task has registered its waker.
  abbrev Registers : (s : Connection W Q S U Wr Rd) → ℕ → Polled IoError aw is_utf8 s → Type 0
  Registers s task (t, calls, ready exit) = Unit {0}
  Registers s task (t, calls, pending) =
      t.core.r_wake_on_drop ≡ aw.register s.core.r_wake_on_drop task

  poll_all_dropped_registers :
      (s : Connection W Q S U Wr Rd) (task : ℕ)
      → ltb 0 (strong s.handles) ≡ true
      → (poll_all_dropped aw s task).0.core.r_wake_on_drop ≡ aw.register s.core.r_wake_on_drop task
  unfolding poll_all_dropped register_wake_on_drop
  poll_all_dropped_registers s task e = rw (e, poll_all_dropped) refl

  poll_all_dropped_gone :
      (s : Connection W Q S U Wr Rd) (task : ℕ)
      → ltb 0 (strong s.handles) ≡ false
      → (poll_all_dropped aw s task).0 ≡ s
  unfolding poll_all_dropped
  poll_all_dropped_gone s task e = rw (e, poll_all_dropped) refl

  then_signal-Registers :
      (s : Connection W Q S U Wr Rd) (task : ℕ) (reqs : Option (RequestContext W))
      (calls : Calls IoError aw s.core.codec is_utf8)
      (p : Poll (Exit IoError aw s.core.codec is_utf8))
      → Registers s task (then_signal IoError aw is_utf8 s task (reqs, calls, p))
  unfolding poll_all_dropped register_wake_on_drop
  then_signal-Registers s task reqs calls (ready exit) = tt
  then_signal-Registers s task reqs calls pending =
      let u = behind_loop IoError aw is_utf8 s reqs calls in
      elim (Bool-cases (ltb 0 (strong u.handles))) [
        | inl e ↦ rw (e, then_signal, poll_all_dropped) (poll_all_dropped_registers u task e)
        | inr e ↦ rw (e, then_signal, poll_all_dropped) tt
      ]

  abbrev loop_poll :
      (reads : List (Result Bytes IoError)) (ended : Bool) (s : Connection W Q S U Wr Rd)
      → Outcome (
          Option (RequestContext W)
          × Calls IoError aw s.core.codec is_utf8
          × Poll (Exit IoError aw s.core.codec is_utf8))
  loop_poll reads ended s =
      poll_receive_loop IoError aw s.core.codec is_utf8 (ltb 0 (strong s.handles)) reads ended
        s.core.reqs []

  poll_weak_task-Registers :
      (first : Bool) (reads : List (Result Bytes IoError)) (ended : Bool)
      (s : Connection W Q S U Wr Rd) (task : ℕ)
      → Ensures (Registers s task) (poll_weak_task IoError aw is_utf8 first reads ended s task)
  unfolding poll_weak_task poll_all_dropped register_wake_on_drop
  poll_weak_task-Registers true reads ended s task =
      Ensures-bind (λ _. Unit {0}) (Registers s task) (loop_poll reads ended s)
        (λ r. returns (then_signal IoError aw is_utf8 s task r))
        (Ensures-any (loop_poll reads ended s))
        (λ (reqs, calls, p) _. then_signal-Registers s task reqs calls p)
  poll_weak_task-Registers false reads ended s task = elim (Bool-cases (ltb 0 (strong s.handles))) [
    | inl e ↦
        rw (e, poll_weak_task, poll_all_dropped)
          (Ensures-bind (λ _. Unit {0}) (Registers s task) (loop_poll reads ended s)
            (λ (reqs, calls, p).
              returns (
                behind_loop IoError aw is_utf8 (poll_all_dropped aw s task).0 reqs calls,
                calls,
                p,
              ))
            (Ensures-any (loop_poll reads ended s)) (λ (reqs, calls, p) _. go reqs calls p e))
    | inr e ↦ rw (e, poll_weak_task, poll_all_dropped) tt
  ]
    where
      go :
          (reqs : Option (RequestContext W)) (calls : Calls IoError aw s.core.codec is_utf8)
          (p : Poll (Exit IoError aw s.core.codec is_utf8))
          → ltb 0 (strong s.handles) ≡ true
          → Registers s task
              (behind_loop IoError aw is_utf8 (poll_all_dropped aw s task).0 reqs calls, calls, p)
      go reqs calls (ready exit) e = tt
      go reqs calls pending e = poll_all_dropped_registers s task e

  behind_nothing :
      (s : Connection W Q S U Wr Rd) → behind_loop IoError aw is_utf8 s s.core.reqs [] ≡ s
  behind_nothing s =
      let same : 0 + s.handles.inbounds ≡ s.handles.inbounds = omega arith in
      ap (λ (n : ℕ). record s { handles = record s.handles { inbounds = n } }) same

  ended_as :
      (s u : Connection W Q S U Wr Rd) (exit : Exit IoError aw s.core.codec is_utf8)
      → u ≡ s
      → ◌≡◌ {A = Outcome (Polled IoError aw is_utf8 s)}
          (returns (u, [], ready exit))
          (returns (s, [], ready exit))
  ended_as s u exit e =
      ap {B = Outcome (Polled IoError aw is_utf8 s)}
        (λ (u : Connection W Q S U Wr Rd). returns (u, [], ready exit)) e

  poll_weak_task_ends :
      (first : Bool) (reads : List (Result Bytes IoError)) (ended : Bool)
      (s : Connection W Q S U Wr Rd) (task : ℕ)
      → ltb 0 (strong s.handles) ≡ false
      → (exit : Exit IoError aw s.core.codec is_utf8) × (poll_weak_task IoError aw is_utf8 first
            reads ended s task
          ≡ returns (s, [], ready exit))
  unfolding poll_weak_task poll_receive_loop poll_all_dropped
  poll_weak_task_ends true [] true s task e =
      (ok ReadRunnerExitType.eof, ended_as s _ _ (behind_nothing s))
  poll_weak_task_ends true [] false s task e =
      let u : Connection W Q S U Wr Rd = behind_loop IoError aw is_utf8 s s.core.reqs [] in
      let e' : ltb 0 (strong u.handles) ≡ false = ground (arith, e) in
      (
        ok ReadRunnerExitType.all_handle_dropped,
        rw (e', poll_weak_task, poll_receive_loop, then_signal, poll_all_dropped)
            (ended_as s _ _ (poll_all_dropped_gone u task e' ∙ behind_nothing s)),
      )
  poll_weak_task_ends true (err x ∷ reads) ended s task e =
      (err x, ended_as s _ _ (behind_nothing s))
  poll_weak_task_ends true (ok ib ∷ reads) ended s task e = (
    ok ReadRunnerExitType.all_handle_dropped,
    rw (e, poll_weak_task, poll_receive_loop) (ended_as s _ _ (behind_nothing s)),
  )
  poll_weak_task_ends false reads ended s task e = (
    ok ReadRunnerExitType.all_handle_dropped,
    rw (e, poll_weak_task, poll_all_dropped) (ended_as s _ _ (poll_all_dropped_gone s task e)),
  )

  module _ (ch : Channel Q WriterDirective) where
    -- Where a poll of the task of `into_weak_runner_task` is pending, and however the handles are used
    -- then, when none is left the drop of the core wakes the task, and its next poll ends it without
    -- a frame being handled, whatever can be read and whichever branch is polled first.
    pub last_drop_ends :
        (s t u : Connection W Q S U Wr Rd) (first again : Bool)
        (reads more : List (Result Bytes IoError)) (ended over : Bool) (task later : ℕ)
        (calls : Calls IoError aw s.core.codec is_utf8)
        → IsAtomicWaker aw
        → poll_weak_task IoError aw is_utf8 first reads ended s task ≡ returns (t, calls, pending)
        → Reach IoError aw ch is_utf8 t u
        → strong u.handles ≡ 0
        → ((drop_core aw u.core).1 ≡ some task)
          × ((exit : Exit IoError aw u.core.codec is_utf8) × (poll_weak_task IoError aw is_utf8
                  again more over u later
                ≡ returns (u, [], ready exit)))
    unfolding drop_core
    last_drop_ends s t u first again reads more ended over task later calls laws polled reach gone =
        let registered =
          Ensures-returns (Registers s task) _ (t, calls, pending)
            (poll_weak_task-Registers first reads ended s task) polled in
        (
          ap (λ w. (aw.take w).1) (Reach-wake_on_drop IoError aw ch is_utf8 t u reach ∙ registered)
              ∙ laws.take-register s.core.r_wake_on_drop task,
          poll_weak_task_ends again more over u later (ground (arith, gone)),
        )
