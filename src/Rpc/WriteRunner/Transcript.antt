-- ===== src/Rpc/WriteRunner/Transcript.antt =====
-- What the writer is asked to do, described by the messages alone, and the runs that meet it.
use mathlib.Core.List.{append-nil}
use rpc_it_rs.Base.{
  ℕ, ◌≡◌, ◌≢◌, refl, true, false, List, [], ◌∷◌, ◌++◌, All, Result, ok, Outcome, returns, ◌>>=◌,
  sym, ap, ◌∙◌, arith,
}
use rpc_it_rs.Defs.{Bytes}
use rpc_it_rs.Io.{FrameWriter}
use rpc_it_rs.Rpc.Types.{
  WriterDirective, close_immediately, close_after_flush, flush, write_msg, write_msg_burst,
  write_req_msg, WriteRunnerError, WriteRunnerExitType, all_handle_dropped, manual_close_immediate,
  manual_close, write_failed, writer_flush_failed, writer_close_failed,
}
use rpc_it_rs.Rpc.WriteRunner.{
  Upgrade, dropped, without_reqs, with_reqs, Turn, Runner, Next, continues, stops, ContextCall,
  mark_expired, Ended, attempt, after_request, handle, finish, receive_loop, expire_requests,
  write_runner,
}

-- A call on the writer.
pub data WriterCall : Type 0 where
  frame : Bytes → WriterCall
  burst : List Bytes → WriterCall
  flushed closed : WriterCall

-- The calls that the messages ask for. Nothing behind `CloseImmediately` counts.
abbrev pub transcript : List WriterDirective → List WriterCall
transcript [] = []
transcript (close_immediately ∷ ds) = closed ∷ []
transcript (close_after_flush ∷ ds) = transcript ds
transcript (flush ∷ ds) = flushed ∷ transcript ds
transcript (write_msg payload ∷ ds) = frame payload ∷ transcript ds
transcript (write_msg_burst chunks ∷ ds) = burst chunks ∷ transcript ds
transcript (write_req_msg payload id ∷ ds) = frame payload ∷ transcript ds

-- The exit type that the messages ask for.
abbrev pub exit_from : WriteRunnerExitType → List WriterDirective → WriteRunnerExitType
exit_from exit [] = exit
exit_from exit (close_immediately ∷ ds) = manual_close_immediate
exit_from exit (close_after_flush ∷ ds) = exit_from manual_close ds
exit_from exit (flush ∷ ds) = exit_from exit ds
exit_from exit (write_msg payload ∷ ds) = exit_from exit ds
exit_from exit (write_msg_burst chunks ∷ ds) = exit_from exit ds
exit_from exit (write_req_msg payload id ∷ ds) = exit_from exit ds

abbrev pub directives : List Turn → List WriterDirective
directives [] = []
directives (t ∷ ts) = t.directive ∷ directives ts

-- A request is only ever sent through a core that has a request context.
abbrev pub Allowed : WriterDirective → Upgrade → Type 0
Allowed close_immediately up = Unit {0}
Allowed close_after_flush up = Unit {0}
Allowed flush up = Unit {0}
Allowed (write_msg payload) up = Unit {0}
Allowed (write_msg_burst chunks) up = Unit {0}
Allowed (write_req_msg payload id) up = up ≢ without_reqs

abbrev pub HasReqs : List Turn → Type 0
HasReqs = All (λ t. Allowed t.directive t.upgrade)

-- The block was not left through `CloseImmediately` before.
abbrev pub IsOpen : WriteRunnerExitType → Type 0
IsOpen exit = exit ≢ manual_close_immediate

-- The call on the request context behind the block, if it is alive.
abbrev pub expired_calls : Upgrade → List ContextCall
expired_calls with_reqs = mark_expired ∷ []
expired_calls _ = []

module _ {S E : Type 0} (fw : FrameWriter S E) where
  abbrev pub perform : S → List WriterCall → S
  perform s [] = s
  perform s (frame payload ∷ cs) = perform (fw.write_frame s payload).0 cs
  perform s (burst chunks ∷ cs) = perform (fw.write_frame_burst s chunks).0 cs
  perform s (flushed ∷ cs) = perform (fw.flush s).0 cs
  perform s (closed ∷ cs) = perform (fw.close s).0 cs

  -- No call on the writer fails.
  pub record IsReliable : Type 0 where
    pub frames : (s : S) (b : Bytes) → (fw.write_frame s b).1 ≡ ok tt
    pub bursts : (s : S) (bs : List Bytes) → (fw.write_frame_burst s bs).1 ≡ ok tt
    pub flushes : (s : S) → (fw.flush s).1 ≡ ok tt
    pub closes : (s : S) → (fw.close s).1 ≡ ok tt

  attempt_ok :
      (r : Runner S) (p : S × Result (Unit {0}) E) (fail : E → WriteRunnerError E) (next : Next E)
      → p.1 ≡ ok tt
      → attempt r p fail next ≡ returns (record r { writer = p.0 }, next)
  attempt_ok r p fail next e = ground arith

  pub finish_open :
      (r : Runner S) (exit : WriteRunnerExitType)
      → IsOpen exit
      → finish fw r exit ≡ returns (r, ok exit)
  unfolding finish
  finish_open r all_handle_dropped h = refl
  finish_open r manual_close_immediate h = absurd (h refl)
  finish_open r manual_close h = refl

  -- The loop on a reliable writer.
  Serves :
      Runner S
      → WriteRunnerExitType
      → List WriterDirective
      → Outcome (Runner S × Result WriteRunnerExitType (WriteRunnerError E))
      → Type 0
  Serves r exit ds o =
      (r' : Runner S) × (o ≡ returns (r', ok (exit_from exit ds)))
      × (r'.writer ≡ perform r.writer (transcript ds))
      × (r'.calls ≡ r.calls)

  after_request_ok :
      (r : Runner S) (up : Upgrade) (id : ℕ) (result : Result (Unit {0}) E)
      (exit : WriteRunnerExitType)
      → up ≢ without_reqs
      → result ≡ ok tt
      → after_request r up id result exit ≡ returns (r, continues exit)
  unfolding after_request
  after_request_ok r dropped id result exit h e = refl
  after_request_ok r without_reqs id result exit h e = absurd (h refl)
  after_request_ok r with_reqs id result exit h e = rw e

  step-Serves :
      IsReliable
      → (r : Runner S) (exit : WriteRunnerExitType) (d : WriterDirective) (up : Upgrade)
        (ds : List WriterDirective) (rest : Runner S → WriteRunnerExitType → Ended S E)
      → IsOpen exit
      → Allowed d up
      → ((r' : Runner S) (exit' : WriteRunnerExitType)
          → IsOpen exit'
          → Serves r' exit' ds (rest r' exit'))
      → Serves r exit (d ∷ ds) (do
        (r', next) ← handle fw r exit d up
        elim next [ continues exit' ↦ rest r' exit' | stops result ↦ returns (r', result) ])
  unfolding Serves handle
  step-Serves v r exit close_immediately up ds rest opened h k =
      rw
        (attempt_ok _ (fw.close r.writer) writer_close_failed (stops (ok manual_close_immediate))
          (v.closes r.writer))
        (record r { rx_closed = true; writer = (fw.close r.writer).0 }, refl, refl, refl)
  step-Serves v r exit close_after_flush up ds rest opened h k =
      k (record r { rx_closed = true }) manual_close (λ e. cc)
  step-Serves v r exit flush up ds rest opened h k =
      rw
        (attempt_ok r (fw.flush r.writer) writer_flush_failed (continues exit) (v.flushes r.writer))
        (k _ exit opened)
  step-Serves v r exit (write_msg payload) up ds rest opened h k =
      rw
        (attempt_ok r (fw.write_frame r.writer payload) write_failed (continues exit)
          (v.frames r.writer payload))
        (k _ exit opened)
  step-Serves v r exit (write_msg_burst chunks) up ds rest opened h k =
      rw
        (attempt_ok r (fw.write_frame_burst r.writer chunks) write_failed (continues exit)
          (v.bursts r.writer chunks))
        (k _ exit opened)
  step-Serves v r exit (write_req_msg payload id) up ds rest opened h k =
      rw (after_request_ok _ up id _ exit h (v.frames r.writer payload)) (k _ exit opened)

  loop-Serves :
      IsReliable
      → (r : Runner S) (exit : WriteRunnerExitType) (ts : List Turn) → IsOpen exit
      → HasReqs ts
      → Serves r exit (directives ts) (receive_loop fw r exit ts)
  unfolding receive_loop
  loop-Serves v r exit [] opened h = unfold Serves in (r, finish_open r exit opened, refl, refl)
  loop-Serves v r exit (t ∷ ts) opened h =
      step-Serves v r exit t.directive t.upgrade (directives ts)
        (λ r' exit'. receive_loop fw r' exit' ts) opened h.0
        (λ r' exit' opened'. loop-Serves v r' exit' ts opened' h.1)

  pub expire_requests_lem :
      (r : Runner S) (final : Upgrade)
      → ((expire_requests r final).writer ≡ r.writer)
        × ((expire_requests r final).calls ≡ r.calls ++ expired_calls final)
  unfolding expire_requests
  expire_requests_lem r with_reqs = (refl, refl)
  expire_requests_lem r dropped = (refl, sym (append-nil r.calls))
  expire_requests_lem r without_reqs = (refl, sym (append-nil r.calls))

  -- On a writer whose calls do not fail, and where no request comes to a core without a request
  -- context, the runner returns, having made these calls, in the order of the messages: a write of
  -- the frame for a message with one and of the whole burst for a burst, a flush for `Flush`, nothing
  -- for `CloseAfterFlush`, and a close for the first `CloseImmediately`, which is the last call. Its
  -- exit type is then `ManualCloseImmediate`, else `ManualClose` where there is a `CloseAfterFlush`,
  -- else `AllHandleDropped`; and no request is failed: the one call on the request context is
  -- `mark_expired`, if the context is alive at the end.
  pub write_runner_delivers :
      (w : S) (ts : List Turn) (final : Upgrade)
      → IsReliable
      → HasReqs ts
      → (r : Runner S) × (write_runner fw w ts final
          ≡ returns (r, ok (exit_from all_handle_dropped (directives ts))))
        × (r.writer ≡ perform w (transcript (directives ts)))
        × (r.calls ≡ expired_calls final)
  unfolding write_runner Serves
  write_runner_delivers w ts final v h =
      let start : Runner S = record { writer = w; rx_closed = false; calls = [] } in
      let (r, e, p, q) = loop-Serves v start all_handle_dropped ts (λ e. cc) h in
      let (same, called) = expire_requests_lem r final in
      (expire_requests r final, rw e, same ∙ p, called ∙ ap (λ cs. cs ++ expired_calls final) q)
