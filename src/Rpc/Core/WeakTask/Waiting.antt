-- ===== src/Rpc/Core/WeakTask/Waiting.antt =====
-- What the task of `into_weak_runner_task` does to the requests that wait.
use rpc_it_rs.Base.{
  none, ◌>>=◌, ℕ, ◌≡◌, refl, sym, subst, inl, inr, Bool, true, false, Option, some, List, [], ◌∷◌,
  Result, ok, err, Poll, pending, ready, returns, Ensures, Ensures-bind, Ensures-returns, ltb,
  get_elem?, Bool-cases,
}
use rpc_it_rs.Base.Assoc.{lookup}
use rpc_it_rs.Defs.{Bytes}
use rpc_it_rs.Codec.{Codec}
use rpc_it_rs.Waker.{AtomicWaker}
use rpc_it_rs.Rpc.Types.{ResponseState}
use rpc_it_rs.Rpc.ReqRep.{RequestContext, poll}
use rpc_it_rs.Rpc.ReqRep.Machine.{handle_at}
use rpc_it_rs.Rpc.ReqRep.Cells.{cell, poll_pending}
use rpc_it_rs.Rpc.Receiver.{handle_inbound_once}
use rpc_it_rs.Rpc.Receiver.{drop_receiver}
use rpc_it_rs.Rpc.Receiver.Expires.{Expires, handle_inbound_once-Expires}
use rpc_it_rs.Rpc.Core.{Connection}
use rpc_it_rs.Rpc.Core.HandleSteps.{strong}
use rpc_it_rs.Rpc.Core.Dropping.{poll_all_dropped, register_wake_on_drop}
use rpc_it_rs.Rpc.Core.WeakTask.{
  Calls, Exit, Polled, behind_loop, then_signal, poll_receive_loop, poll_weak_task, start_weak_task,
  drop_self, settle, poll_runner_task,
}

module _ {W S : Type 0} (IoError : Type 0) (aw : AtomicWaker W) (codec : Codec S)
    (is_utf8 : Bytes → Bool) (v : Bool) where
  poll_receive_loop-Expires :
      (alive : Bool) (reads : List (Result Bytes IoError)) (ended : Bool)
      (reqs : Option (RequestContext W)) (calls : Calls IoError aw codec is_utf8)
      → Expires v reqs
      → Ensures
          (λ r. Expires v r.0)
          (poll_receive_loop IoError aw codec is_utf8 alive reads ended reqs calls)
  unfolding poll_receive_loop
  poll_receive_loop-Expires alive [] true reqs calls e = e
  poll_receive_loop-Expires alive [] false reqs calls e = e
  poll_receive_loop-Expires alive (err _ ∷ reads) ended reqs calls e = e
  poll_receive_loop-Expires false (ok ib ∷ reads) ended reqs calls e = e
  poll_receive_loop-Expires true (ok ib ∷ reads) ended reqs calls e =
      Ensures-bind (λ h. Expires v h.0) (λ r. Expires v r.0)
        (handle_inbound_once IoError aw codec is_utf8 reqs ib) _
        (handle_inbound_once-Expires IoError aw codec is_utf8 v reqs ib e)
        (λ h f. poll_receive_loop-Expires true reads ended h.0 _ f)

module _ {W Q S U Wr Rd : Type 0} (IoError : Type 0) (aw : AtomicWaker W)
    (is_utf8 : Bytes → Bool) where
  poll_all_dropped_reqs :
      (s : Connection W Q S U Wr Rd) (task : ℕ)
      → (poll_all_dropped aw s task).0.core.reqs ≡ s.core.reqs
  unfolding poll_all_dropped register_wake_on_drop
  poll_all_dropped_reqs s task = elim (Bool-cases (ltb 0 (strong s.handles))) [
    | inl e ↦ rw (e, poll_all_dropped) refl
    | inr e ↦ rw (e, poll_all_dropped) refl
  ]

  then_signal_reqs :
      (s : Connection W Q S U Wr Rd) (task : ℕ) (reqs : Option (RequestContext W))
      (calls : Calls IoError aw s.core.codec is_utf8)
      (p : Poll (Exit IoError aw s.core.codec is_utf8))
      → (then_signal IoError aw is_utf8 s task (reqs, calls, p)).0.core.reqs ≡ reqs
  unfolding poll_all_dropped register_wake_on_drop
  then_signal_reqs s task reqs calls (ready exit) = refl
  then_signal_reqs s task reqs calls pending =
      elim (Bool-cases (ltb 0 (strong (behind_loop IoError aw is_utf8 s reqs calls).handles))) [
        | inl e ↦
            rw (e, then_signal, poll_all_dropped)
              (poll_all_dropped_reqs (behind_loop IoError aw is_utf8 s reqs calls) task)
        | inr e ↦
            rw (e, then_signal, poll_all_dropped)
              (poll_all_dropped_reqs (behind_loop IoError aw is_utf8 s reqs calls) task)
      ]

  poll_weak_task-Expires :
      (first : Bool) (reads : List (Result Bytes IoError)) (ended : Bool)
      (s : Connection W Q S U Wr Rd) (task : ℕ) (v : Bool)
      → Expires v s.core.reqs
      → Ensures
          (λ r. Expires v r.0.core.reqs)
          (poll_weak_task IoError aw is_utf8 first reads ended s task)
  unfolding poll_weak_task poll_all_dropped register_wake_on_drop
  poll_weak_task-Expires true reads ended s task v e =
      Ensures-bind
        (λ (r : Option (RequestContext W)
            × Calls IoError aw s.core.codec is_utf8
            × Poll (Exit IoError aw s.core.codec is_utf8)).
          Expires v r.0)
        (λ (r : Polled IoError aw is_utf8 s). Expires v r.0.core.reqs) _ _
        (poll_receive_loop-Expires IoError aw s.core.codec is_utf8 v (ltb 0 (strong s.handles))
          reads ended s.core.reqs [] e)
        (λ (reqs, calls, p) f. subst (Expires v) (sym (then_signal_reqs s task reqs calls p)) f)
  poll_weak_task-Expires false reads ended s task v e =
      elim (Bool-cases (ltb 0 (strong s.handles))) [
        | inl alive ↦
            rw (alive, poll_weak_task, poll_all_dropped)
              (Ensures-bind
                (λ (r : Option (RequestContext W)
                    × Calls IoError aw s.core.codec is_utf8
                    × Poll (Exit IoError aw s.core.codec is_utf8)).
                  Expires v r.0)
                (λ (r : Polled IoError aw is_utf8 s). Expires v r.0.core.reqs) _ _
                (poll_receive_loop-Expires IoError aw s.core.codec is_utf8 v
                  (ltb 0 (strong s.handles)) reads ended s.core.reqs [] e)
                (λ (reqs, calls, p) f. f))
        | inr gone ↦
            rw (gone, poll_weak_task, poll_all_dropped)
              (subst (Expires v) (sym (poll_all_dropped_reqs s task)) e)
      ]

  start_weak_task-left :
      (own left : Option (Unit {0})) (s t : Connection W Q S U Wr Rd)
      → start_weak_task IoError aw is_utf8 own s ≡ returns (t, left)
      → left ≡ none
  unfolding start_weak_task
  start_weak_task-left none left s t e = cc
  start_weak_task-left (some _) left s t e = cc

  settle_reqs :
      (s : Connection W Q S U Wr Rd) (r : Polled IoError aw is_utf8 s)
      → (settle IoError aw is_utf8 s none r).0.core.reqs ≡ r.0.core.reqs
  unfolding drop_self drop_receiver
  settle_reqs s (t, calls, pending) = refl
  settle_reqs s (t, calls, ready exit) = refl

  -- Behind the start of `into_weak_runner_task`, which takes the core out of the receiver, and however
  -- a poll of the task ends, at the end of the file, by an error of the reader, because the handles
  -- were dropped, each with the drop of the receiver, or not at all: a context that was not expired
  -- is not expired by it, and in the context behind it a listed request without a response is
  -- polled as `Pending`.
  pub weak_task_leaves_waiting :
      (own left : Option (Unit {0})) (s0 s1 s t : Connection W Q S U Wr Rd) (c d : RequestContext W)
      (first : Bool) (reads : List (Result Bytes IoError)) (ended : Bool) (task : ℕ)
      (calls : Calls IoError aw s.core.codec is_utf8)
      (p : Poll (Exit IoError aw s.core.codec is_utf8)) (id at later : ℕ) (w : W)
      → start_weak_task IoError aw is_utf8 own s0 ≡ returns (s1, left)
      → s.core.reqs ≡ some c
      → c.expired ≡ false
      → poll_runner_task IoError aw is_utf8 left first reads ended s task ≡ returns (t, calls, p)
      → t.core.reqs ≡ some d
      → get_elem? d.waiters at ≡ some (cell w ResponseState.none)
      → lookup id d.wait_list ≡ some at
      → (e : RequestContext W) × (poll aw t.core.codec d (some (handle_at id at)) later
          ≡ returns (e, some (handle_at id at), pending))
  unfolding poll_runner_task
  weak_task_leaves_waiting own left s0 s1 s t c d first reads ended task calls p id at later w
        started had alive polled has stored listed =
      let gone = start_weak_task-left own left s0 s1 started in
      let run = poll_weak_task IoError aw is_utf8 first reads ended s task in
      let polled' : (run >>= λ r. returns (settle IoError aw is_utf8 s none r))
          ≡ returns (t, calls, p) =
        subst
          (λ (o : Option (Unit {0})).
            poll_runner_task IoError aw is_utf8 o first reads ended s task ≡ returns (t, calls, p))
          gone polled in
      let kept : Expires false t.core.reqs =
        Ensures-returns (λ (r : Polled IoError aw is_utf8 s). Expires false r.0.core.reqs) _
          (t, calls, p)
          (Ensures-bind (λ (r : Polled IoError aw is_utf8 s). Expires false r.0.core.reqs)
            (λ (r : Polled IoError aw is_utf8 s). Expires false r.0.core.reqs) run
            (λ r. returns (settle IoError aw is_utf8 s none r))
            (poll_weak_task-Expires first reads ended s task false
              (subst (Expires false) (sym had) alive))
            (λ r f. subst (Expires false) (sym (settle_reqs s r)) f))
          polled' in
      let (e, pends, _, _, _) =
        poll_pending aw t.core.codec d id at later w stored listed
          (subst (Expires false) has kept) in
      (e, pends)
