-- ===== src/Rpc/ReqRep/Wakeup.antt =====
-- No lost wake-up: a task that was told to wait is woken by what ends its wait.
use rpc_it_rs.Base.{ℕ, ◌≡◌, refl, subst, ap, ◌∙◌, Option, none, some, ◌∷◌, Result, ok, err, map_err}
use rpc_it_rs.Base.Assoc.{lookup}
use rpc_it_rs.Defs.{Bytes, RangeType}
use rpc_it_rs.Codec.{ResponseError}
use rpc_it_rs.Rpc.Types.{Response, ResponseState, ResponseReceiveError, closed}
use rpc_it_rs.Waker.{AtomicWaker, IsAtomicWaker}
use rpc_it_rs.Rpc.ReqRep.{
  RequestContext, make_response, set_response, set_request_write_failed, deliver, fail, overwrite,
}
use rpc_it_rs.Rpc.ReqRep.Preserve.{deliver-Touches, fail-Touches}
use rpc_it_rs.Rpc.ReqRep.Cells.{written_cell, write_and_wake, Ends, poll_ready, poll_failed, Waits}

module _ {W : Type 0} (aw : AtomicWaker W) {C : Type 0} (codec : C) where
  pub response_polled :
      (c : RequestContext W) (id at task later : ℕ) (raw : Bytes) (payload : RangeType)
      (errc : Option ResponseError)
      → IsAtomicWaker aw
      → Waits aw c id at task
      → (d : RequestContext W) × (set_response aw c id raw payload errc ≡ (d, ok tt))
        × (d.woken ≡ task ∷ c.woken)
        × Ends aw codec d id at later
            (map_err ResponseReceiveError.response (make_response codec raw payload errc))
  unfolding set_response overwrite
  response_polled c id at task later raw payload errc laws w =
      let new : ResponseState = ResponseState.ready raw errc payload in
      (
        deliver aw c at new,
        rw (w.listed, set_response, w.alive),
        write_and_wake aw c at task _ _ w.before laws w.registered,
        poll_ready aw codec (deliver aw c at new) id at later _ raw errc payload
            (written_cell aw c at _ _ _ w.registered)
            ((ap (lookup id) (deliver-Touches aw c at new).wait_list) ∙ w.listed),
      )

  -- What a waiter is to be given for the bytes that arrived.
  abbrev pub arrived :
      Bytes → RangeType → Option ResponseError → Result (Response C) (ResponseReceiveError C)
  arrived raw payload none = ok (record { codec = codec; raw = raw; payload = payload })
  arrived raw payload (some errc) = err (
      ResponseReceiveError.response
        (record { errc = errc; codec = codec; raw = raw; payload = payload }))

  made-arrived :
      (raw : Bytes) (payload : RangeType) (errc : Option ResponseError)
      → map_err ResponseReceiveError.response (make_response codec raw payload errc)
        ≡ arrived raw payload errc
  unfolding make_response
  made-arrived raw payload none = refl
  made-arrived raw payload (some errc) = refl

  -- With a waker as documented, where a task waits for a request in a context that is not
  -- expired, `set_response` for the id accepts the response and wakes that task, and the next
  -- poll, by any task, frees the id and gives what arrived: a response with those bytes and that
  -- payload where there is no error code, and else the error response with the code.
  pub response_wakes :
      (c : RequestContext W) (id at task later : ℕ) (raw : Bytes) (payload : RangeType)
      (errc : Option ResponseError)
      → IsAtomicWaker aw
      → Waits aw c id at task
      → (d : RequestContext W) × (set_response aw c id raw payload errc ≡ (d, ok tt))
        × (d.woken ≡ task ∷ c.woken)
        × Ends aw codec d id at later (arrived raw payload errc)
  response_wakes c id at task later raw payload errc laws w =
      let (d, accepted, woken, ends) = response_polled c id at task later raw payload errc laws w in
      (d, accepted, woken, subst (Ends aw codec d id at later) (made-arrived raw payload errc) ends)

  -- Where the writer fails to send the request of a waiting task, that task is woken, and its next
  -- poll returns `Closed` and frees the id.
  pub write_failure_wakes :
      (c : RequestContext W) (id at task later : ℕ)
      → IsAtomicWaker aw
      → Waits aw c id at task
      → let d = set_request_write_failed aw c id in
        (d.woken ≡ task ∷ c.woken) × Ends aw codec d id at later (err closed)
  unfolding set_request_write_failed
  write_failure_wakes c id at task later laws w =
      rw (w.listed, set_request_write_failed)
        (
          write_and_wake aw c at task _ _ w.before laws w.registered,
          poll_failed aw codec (fail aw c at) id at later _
              (written_cell aw c at _ _ _ w.registered)
              ((ap (lookup id) (fail-Touches aw c at).wait_list) ∙ w.listed),
        )
