-- ===== src/Rpc/WriteRunner.antt =====
-- src/rpc/core.rs, `write_runner`: the background task that owns the writer. The channel is not
-- part of the repository: what `rx_directive.recv()` returns until its first error is the list of
-- turns. The calls on the request context, which others share, are recorded in order.
pub mod Transcript
pub mod Endings
pub mod Closing
use rpc_it_rs.Base.{
  ℕ, Bool, true, false, List, [], ◌∷◌, ◌++◌, Result, ok, err, Outcome, returns, panics, ◌>>=◌,
}
use rpc_it_rs.Defs.{Bytes}
use rpc_it_rs.Io.{FrameWriter}
use rpc_it_rs.Rpc.Types.{
  WriterDirective, close_immediately, close_after_flush, flush, write_msg, write_msg_burst,
  write_req_msg, WriteRunnerError, writer_close_failed, writer_flush_failed, write_failed,
  WriteRunnerExitType, all_handle_dropped, manual_close_immediate, manual_close,
}

-- What `w_ctx.upgrade()` gives: nothing, or a core with or without a request context.
pub data Upgrade : Type 0 where
  dropped without_reqs with_reqs : Upgrade

-- A received message, and the state of the weak handle when it is handled.
pub record Turn : Type 0 where
  pub directive : WriterDirective
  pub upgrade : Upgrade

pub data ContextCall : Type 0 where
  set_request_write_failed : ℕ → ContextCall
  mark_expired : ContextCall

pub record Runner (S : Type 0) : Type 0 where
  pub writer : S
  pub rx_closed : Bool
  pub calls : List ContextCall

-- How a turn ends: the loop goes on with an exit type, or the block returns.
pub data Next (E : Type 0) : Type 0 where
  continues : WriteRunnerExitType → Next E
  stops : Result WriteRunnerExitType (WriteRunnerError E) → Next E

abbrev pub Ended : Type 0 → Type 0 → Type 0
Ended S E = Outcome (Runner S × Result WriteRunnerExitType (WriteRunnerError E))

-- Behind the block: the requests that still wait are given up.
unfoldable pub expire_requests : {S : Type 0} → Runner S → Upgrade → Runner S
expire_requests r with_reqs = record r { rx_closed = true; calls = r.calls ++ mark_expired ∷ [] }
expire_requests r _ = r

module _ {S E : Type 0} where
  -- `op.await.map_err(fail)?`, and then the next turn.
  abbrev pub attempt :
      Runner S
      → S × Result (Unit {0}) E
      → (E → WriteRunnerError E)
      → Next E
      → Outcome (Runner S × Next E)
  attempt r (s, ok _) fail next = returns (record r { writer = s }, next)
  attempt r (s, err e) fail next = returns (record r { writer = s }, stops (err (fail e)))

  -- The arm of `WriteReqMsg`, behind the write.
  unfoldable pub after_request :
      Runner S
      → Upgrade
      → ℕ
      → Result (Unit {0}) E
      → WriteRunnerExitType
      → Outcome (Runner S × Next E)
  after_request r dropped id result exit = returns (r, continues exit)
  after_request r without_reqs id result exit = panics
  after_request r with_reqs id (ok _) exit = returns (r, continues exit)
  after_request r with_reqs id (err e) exit = returns (
    record r { calls = r.calls ++ set_request_write_failed id ∷ [] },
    stops (err (write_failed e)),
  )

module _ {S E : Type 0} (fw : FrameWriter S E) where
  -- One turn of the loop: the match on the message.
  unfoldable pub handle :
      Runner S → WriteRunnerExitType → WriterDirective → Upgrade → Outcome (Runner S × Next E)
  unfolding after_request
  handle r exit close_immediately up =
      attempt (record r { rx_closed = true }) (fw.close r.writer) writer_close_failed
        (stops (ok manual_close_immediate))
  handle r exit close_after_flush up =
      returns (record r { rx_closed = true }, continues manual_close)
  handle r exit flush up = attempt r (fw.flush r.writer) writer_flush_failed (continues exit)
  handle r exit (write_msg payload) up =
      attempt r (fw.write_frame r.writer payload) write_failed (continues exit)
  handle r exit (write_msg_burst chunks) up =
      attempt r (fw.write_frame_burst r.writer chunks) write_failed (continues exit)
  handle r exit (write_req_msg payload req_id) up =
      let (s, result) = fw.write_frame r.writer payload in
      after_request (record r { writer = s }) up req_id result exit

  -- Behind the loop: the writer is closed if the exit type is `ManualCloseImmediate`.
  unfoldable pub finish : Runner S → WriteRunnerExitType → Ended S E
  finish r manual_close_immediate = do
    (r', next) ←
        attempt r (fw.close r.writer) writer_close_failed (stops (ok manual_close_immediate))
    returns (r', elim next [ stops result ↦ result | continues exit ↦ ok exit ])
  finish r exit = returns (r, ok exit)

  -- `while let Ok(msg) = rx_directive.recv().await`.
  unfoldable pub receive_loop : Runner S → WriteRunnerExitType → List Turn → Ended S E
  unfolding handle finish
  receive_loop r exit [] = finish r exit
  receive_loop r exit (t ∷ ts) = do
    (r', next) ← handle r exit t.directive t.upgrade
    elim next [ continues exit' ↦ receive_loop r' exit' ts | stops result ↦ returns (r', result) ]

  -- `write_runner`, from a writer, the messages, and the weak handle at the end.
  unfoldable pub write_runner : S → List Turn → Upgrade → Ended S E
  unfolding receive_loop expire_requests
  write_runner writer turns final = do
    (r, exec_result) ←
        receive_loop (record { writer = writer; rx_closed = false; calls = [] }) all_handle_dropped
          turns
    returns (expire_requests r final, exec_result)
