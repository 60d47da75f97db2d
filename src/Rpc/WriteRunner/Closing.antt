-- ===== src/Rpc/WriteRunner/Closing.antt =====
-- When `AsyncFrameWrite::close` is called.
use rpc_it_rs.Base.{
  ℕ, ◌≡◌, ◌≢◌, refl, sym, ◌∙◌, ok, err, false, List, [], ◌∷◌, All, Result, returns, ◌>>=◌,
}
use rpc_it_rs.Io.{FrameWriter}
use rpc_it_rs.Rpc.Types.{
  WriterDirective, close_immediately, close_after_flush, flush, write_msg, write_msg_burst,
  write_req_msg, WriteRunnerError, write_failed, writer_flush_failed, WriteRunnerExitType,
  all_handle_dropped, manual_close,
}
use rpc_it_rs.Rpc.WriteRunner.{
  Upgrade, Turn, Runner, Next, continues, stops, Ended, attempt, handle, receive_loop, write_runner,
  after_request, dropped, without_reqs, with_reqs,
}
use rpc_it_rs.Rpc.WriteRunner.Transcript.{IsOpen, finish_open}

-- None of the messages is `CloseImmediately`.
abbrev pub StaysOpen : List Turn → Type 0
StaysOpen = All (λ t. t.directive ≢ close_immediately)

-- The rest of the loop.
abbrev Rest : Type 0 → Type 0 → Type 0
Rest S E = Runner S → WriteRunnerExitType → Ended S E

module _ {S E : Type 0} where
  abbrev go_on : Rest S E → Runner S → Next E → Ended S E
  go_on rest r next = elim next [
    | continues exit ↦ rest r exit
    | stops result ↦ returns (r, result)
  ]

  -- Two rests of the loop that agree while the exit type is not `ManualCloseImmediate`.
  abbrev Agree : Rest S E → Rest S E → Type 0
  Agree rest rest' =
      (r : Runner S) (exit : WriteRunnerExitType) → IsOpen exit → rest r exit ≡ rest' r exit

  attempt_same :
      (rest rest' : Rest S E) (r : Runner S) (p : S × Result (Unit {0}) E)
      (fail : E → WriteRunnerError E) (exit : WriteRunnerExitType)
      → IsOpen exit
      → Agree rest rest'
      → (do (r', next) ← attempt r p fail (continues exit); go_on rest r' next)
        ≡ (do (r', next) ← attempt r p fail (continues exit); go_on rest' r' next)
  attempt_same rest rest' r (s, ok _) fail exit o k = k _ exit o
  attempt_same rest rest' r (s, err x) fail exit o k = refl

  request_same :
      (rest rest' : Rest S E) (r : Runner S) (up : Upgrade) (id : ℕ) (result : Result (Unit {0}) E)
      (exit : WriteRunnerExitType)
      → IsOpen exit
      → Agree rest rest'
      → (do (r', next) ← after_request r up id result exit; go_on rest r' next)
        ≡ (do (r', next) ← after_request r up id result exit; go_on rest' r' next)
  unfolding after_request
  request_same rest rest' r dropped id result exit o k = k r exit o
  request_same rest rest' r without_reqs id result exit o k = refl
  request_same rest rest' r with_reqs id (ok _) exit o k = k r exit o
  request_same rest rest' r with_reqs id (err x) exit o k = refl

module _ {S E : Type 0} (fw : FrameWriter S E) (close' : S → S × Result (Unit {0}) E) where
  -- The same writer with another `close`.
  abbrev pub closing_by : FrameWriter S E
  closing_by = record fw { close = close' }

  step_same :
      (r : Runner S) (exit : WriteRunnerExitType) (d : WriterDirective) (up : Upgrade)
      (rest rest' : Rest S E)
      → d ≢ close_immediately
      → IsOpen exit
      → Agree rest rest'
      → (do (r', next) ← handle closing_by r exit d up; go_on rest r' next)
        ≡ (do (r', next) ← handle fw r exit d up; go_on rest' r' next)
  unfolding handle
  step_same r exit close_immediately up rest rest' h o k = absurd (h refl)
  step_same r exit close_after_flush up rest rest' h o k = k _ manual_close (λ e. cc)
  step_same r exit flush up rest rest' h o k =
      attempt_same rest rest' r (fw.flush r.writer) writer_flush_failed exit o k
  step_same r exit (write_msg payload) up rest rest' h o k =
      attempt_same rest rest' r (fw.write_frame r.writer payload) write_failed exit o k
  step_same r exit (write_msg_burst chunks) up rest rest' h o k =
      attempt_same rest rest' r (fw.write_frame_burst r.writer chunks) write_failed exit o k
  step_same r exit (write_req_msg payload id) up rest rest' h o k =
      request_same rest rest' _ up id _ exit o k

  loop_same :
      (r : Runner S) (exit : WriteRunnerExitType) (ts : List Turn)
      → StaysOpen ts
      → IsOpen exit
      → receive_loop closing_by r exit ts ≡ receive_loop fw r exit ts
  unfolding receive_loop
  loop_same r exit [] h o = finish_open closing_by r exit o ∙ sym (finish_open fw r exit o)
  loop_same r exit (t ∷ ts) h o =
      step_same r exit t.directive t.upgrade _ _ h.0 o (λ r' exit' o'. loop_same r' exit' ts h.1 o')

  -- Unless the runner receives `CloseImmediately` it never closes the writer, also when it is told
  -- to close after a flush: with any other `close` in its place the whole run is the same.
  pub write_runner_never_closes :
      (w : S) (ts : List Turn) (final : Upgrade)
      → StaysOpen ts
      → write_runner closing_by w ts final ≡ write_runner fw w ts final
  unfolding write_runner
  write_runner_never_closes w ts final h = rw (
      loop_same (record { writer = w; rx_closed = false; calls = [] }) all_handle_dropped ts h
        (λ e. cc))
