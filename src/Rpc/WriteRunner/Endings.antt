-- ===== src/Rpc/WriteRunner/Endings.antt =====
-- How the runner ends on a writer that may fail, and when it closes the writer.
use rpc_it_rs.Base.{
  ℕ, ◌≡◌, ◌≢◌, refl, ap, ◌⊎◌, inl, inr, Bool, true, false, List, [], ◌∷◌, ◌++◌, Result, ok, err,
  returns, panics, ◌>>=◌,
}
use rpc_it_rs.Io.{FrameWriter}
use rpc_it_rs.Rpc.Types.{
  WriterDirective, close_immediately, close_after_flush, flush, write_msg, write_msg_burst,
  write_req_msg, WriteRunnerError, WriteRunnerExitType, all_handle_dropped, manual_close_immediate,
  manual_close, write_failed, writer_flush_failed, writer_close_failed,
}
use rpc_it_rs.Rpc.WriteRunner.{
  Upgrade, dropped, without_reqs, with_reqs, Turn, Runner, Next, continues, stops, Ended,
  ContextCall, set_request_write_failed, attempt, after_request, handle, receive_loop,
  expire_requests, write_runner,
}
use rpc_it_rs.Rpc.WriteRunner.Transcript.{
  directives, Allowed, HasReqs, IsOpen, expired_calls, expire_requests_lem, finish_open,
}

-- A request with this id was among the messages.
abbrev pub Requested : ℕ → List WriterDirective → Type 0
Requested id [] = ⊥
Requested id (close_immediately ∷ ds) = Requested id ds
Requested id (close_after_flush ∷ ds) = Requested id ds
Requested id (flush ∷ ds) = Requested id ds
Requested id (write_msg payload ∷ ds) = Requested id ds
Requested id (write_msg_burst chunks ∷ ds) = Requested id ds
Requested id (write_req_msg payload i ∷ ds) = (i ≡ id) ⊎ Requested id ds

Requested-cons :
    (id : ℕ) (d : WriterDirective) (ds : List WriterDirective)
    → Requested id ds
    → Requested id (d ∷ ds)
Requested-cons id close_immediately ds h = h
Requested-cons id close_after_flush ds h = h
Requested-cons id flush ds h = h
Requested-cons id (write_msg payload) ds h = h
Requested-cons id (write_msg_burst chunks) ds h = h
Requested-cons id (write_req_msg payload i) ds h = inr h

-- No request was failed; or one was, whose write failed with the error that is returned.
abbrev pub Blames :
    {E : Type 0}
    → List ContextCall
    → List WriterDirective
    → Result WriteRunnerExitType (WriteRunnerError E)
    → Type 0
Blames {E} calls ds result =
    (calls ≡ [])
    ⊎ ((id : ℕ) × (e : E) × (calls ≡ set_request_write_failed id ∷ [])
        × Requested id ds
        × (result ≡ err (write_failed e)))

-- Whether the channel is closed, where that is asked for: a context that is alive at the end.
abbrev pub closes : Upgrade → Bool → Bool
closes with_reqs closed = closed
closes _ closed = true

module _ {S E : Type 0} (fw : FrameWriter S E) where
  -- The block returns, with at most one request failed.
  abbrev Returns : List WriterDirective → Ended S E → Type 0
  Returns ds (returns (r, result)) = Blames r.calls ds result
  Returns ds panics = ⊥

  weaken :
      (d : WriterDirective) (ds : List WriterDirective) (o : Ended S E)
      → Returns ds o
      → Returns (d ∷ ds) o
  weaken d ds (returns (r, result)) (inl e) = inl e
  weaken d ds (returns (r, result)) (inr (id, e, p, q, h)) =
      inr (id, e, p, Requested-cons id d ds q, h)
  weaken d ds panics h = h

  abbrev go_on : (Runner S → WriteRunnerExitType → Ended S E) → Runner S → Next E → Ended S E
  go_on rest r next = elim next [
    | continues exit ↦ rest r exit
    | stops result ↦ returns (r, result)
  ]

  attempt-Returns :
      (d : WriterDirective) (ds : List WriterDirective)
      (rest : Runner S → WriteRunnerExitType → Ended S E) (r : Runner S)
      (p : S × Result (Unit {0}) E) (fail : E → WriteRunnerError E) (next : Next E)
      → r.calls ≡ []
      → ((r' : Runner S) → r'.calls ≡ [] → Returns (d ∷ ds) (go_on rest r' next))
      → Returns (d ∷ ds) (do (r', next') ← attempt r p fail next; go_on rest r' next')
  attempt-Returns d ds rest r (s, ok _) fail next e k = k (record r { writer = s }) e
  attempt-Returns d ds rest r (s, err x) fail next e k = inl e

  step-Returns :
      (r : Runner S) (exit : WriteRunnerExitType) (d : WriterDirective) (up : Upgrade)
      (ds : List WriterDirective) (rest : Runner S → WriteRunnerExitType → Ended S E)
      → r.calls ≡ []
      → IsOpen exit
      → Allowed d up
      → ((r' : Runner S) (exit' : WriteRunnerExitType)
          → r'.calls ≡ []
          → IsOpen exit'
          → Returns ds (rest r' exit'))
      → Returns (d ∷ ds) (do (r', next) ← handle fw r exit d up; go_on rest r' next)
  unfolding handle after_request
  step-Returns r exit close_immediately up ds rest e o h k =
      attempt-Returns close_immediately ds rest (record r { rx_closed = true }) (fw.close r.writer)
        writer_close_failed (stops (ok manual_close_immediate)) e (λ r' e'. inl e')
  step-Returns r exit close_after_flush up ds rest e o h k =
      weaken close_after_flush ds _ (k (record r { rx_closed = true }) manual_close e (λ x. cc))
  step-Returns r exit flush up ds rest e o h k =
      attempt-Returns flush ds rest r (fw.flush r.writer) writer_flush_failed (continues exit) e
        (λ r' e'. weaken flush ds (rest r' exit) (k r' exit e' o))
  step-Returns r exit (write_msg payload) up ds rest e o h k =
      attempt-Returns (write_msg payload) ds rest r (fw.write_frame r.writer payload) write_failed
        (continues exit) e (λ r' e'. weaken (write_msg payload) ds (rest r' exit) (k r' exit e' o))
  step-Returns r exit (write_msg_burst chunks) up ds rest e o h k =
      attempt-Returns (write_msg_burst chunks) ds rest r (fw.write_frame_burst r.writer chunks)
        write_failed (continues exit) e
        (λ r' e'. weaken (write_msg_burst chunks) ds (rest r' exit) (k r' exit e' o))
  step-Returns r exit (write_req_msg payload id) up ds rest e o h k =
      go up h (fw.write_frame r.writer payload).1
    where
      r1 : Runner S
      r1 = record r { writer = (fw.write_frame r.writer payload).0 }

      go :
          (up : Upgrade)
          → up ≢ without_reqs
          → (result : Result (Unit {0}) E)
          → Returns
              (write_req_msg payload id ∷ ds)
              (do (r', next) ← after_request r1 up id result exit; go_on rest r' next)
      go dropped h result = weaken (write_req_msg payload id) ds (rest r1 exit) (k r1 exit e o)
      go without_reqs h result = absurd (h refl)
      go with_reqs h (ok _) = weaken (write_req_msg payload id) ds (rest r1 exit) (k r1 exit e o)
      go with_reqs h (err x) =
          inr (id, x, ap (λ cs. cs ++ set_request_write_failed id ∷ []) e, inl refl, refl)

  loop-Returns :
      (r : Runner S) (exit : WriteRunnerExitType) (ts : List Turn)
      → r.calls ≡ []
      → IsOpen exit
      → HasReqs ts
      → Returns (directives ts) (receive_loop fw r exit ts)
  unfolding receive_loop
  loop-Returns r exit [] e o h = rw (finish_open fw r exit o) (inl e)
  loop-Returns r exit (t ∷ ts) e o h =
      step-Returns r exit t.directive t.upgrade (directives ts)
        (λ r' exit'. receive_loop fw r' exit' ts) e o h.0
        (λ r' exit' e' o'. loop-Returns r' exit' ts e' o' h.1)

  expire_closes :
      (r : Runner S) (final : Upgrade) → closes final (expire_requests r final).rx_closed ≡ true
  unfolding expire_requests
  expire_closes r with_reqs = refl
  expire_closes r dropped = refl
  expire_closes r without_reqs = refl

  pub write_runner_ends :
      (w : S) (ts : List Turn) (final : Upgrade)
      → HasReqs ts
      → (r : Runner S) × (result : Result WriteRunnerExitType (WriteRunnerError E)) × (failed : List
          ContextCall)
        × (write_runner fw w ts final ≡ returns (r, result))
        × Blames failed (directives ts) result
        × (r.calls ≡ failed ++ expired_calls final)
        × (closes final r.rx_closed ≡ true)
  unfolding write_runner
  write_runner_ends w ts final h =
      go (receive_loop fw start all_handle_dropped ts)
        (loop-Returns start all_handle_dropped ts refl (λ e. cc) h)
    where
      start : Runner S
      start = record { writer = w; rx_closed = false; calls = [] }

      behind : Ended S E → Ended S E
      behind o = do (r, result) ← o; returns (expire_requests r final, result)

      go :
          (o : Ended S E)
          → Returns (directives ts) o
          → (r : Runner S) × (result : Result WriteRunnerExitType (WriteRunnerError E))
            × (failed : List ContextCall) × (behind o ≡ returns (r, result))
            × Blames failed (directives ts) result
            × (r.calls ≡ failed ++ expired_calls final)
            × (closes final r.rx_closed ≡ true)
      go (returns (r, result)) v = (
        expire_requests r final,
        result,
        r.calls,
        refl,
        v,
        (expire_requests_lem fw r final).1,
        expire_closes r final,
      )
      go panics v = absurd v
