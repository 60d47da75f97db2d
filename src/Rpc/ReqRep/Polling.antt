-- ===== src/Rpc/ReqRep/Polling.antt =====
-- `ReceiveResponse::poll` and `try_recv` do not panic on a registered request, and unregister it
-- exactly when they end it.
use rpc_it_rs.Base.{
  ℕ, ◌<◌, ◌≡◌, refl, Option, none, some, List, length, get_elem?-lt, Poll, pending, ready, ◌>>=◌,
  Outcome, returns, panics, if-both,
}
use rpc_it_rs.Base.Assoc.{lookup}
use rpc_it_rs.Rpc.Types.{ResponseState}
use rpc_it_rs.Waker.{AtomicWaker}
use rpc_it_rs.Rpc.ReqRep.{
  RequestContext, Receive, update_response, register, try_unregister, Ready, receive_poll,
  take_response, poll_result, poll, try_recv_result, try_recv,
}
use rpc_it_rs.Rpc.ReqRep.Waiters.{
  Touches, Touches-trans, update_response-Touches, register-Touches, response_at-update_response,
}
use rpc_it_rs.Rpc.ReqRep.Invariant.{IsLive, IsConsistent, lookup-Below, lookup-AllLive}
use rpc_it_rs.Rpc.ReqRep.Preserve.{
  try_unregister-IsConsistent, change-IsConsistent, register-IsConsistent,
}
use rpc_it_rs.Rpc.ReqRep.Machine.{handle_at, keep_handle}

-- A read of a waiter that does not panic, and that leaves it as it is unless there is a response.
abbrev ReadsSafely :
    {W : Type 0} → RequestContext W → ℕ → Outcome (RequestContext W × Poll (Option Ready)) → Type 0
ReadsSafely c at (returns (d, result)) = Touches at c d × (result ≡ pending → IsConsistent d)
ReadsSafely c at panics = ⊥

module _ {W : Type 0} (aw : AtomicWaker W) where
  receive_poll-ReadsSafely :
      (c : RequestContext W) (id at : ℕ)
      → IsConsistent c
      → lookup id c.wait_list ≡ some at
      → ReadsSafely c at (receive_poll aw c (handle_at id at))
  unfolding receive_poll take_response
  receive_poll-ReadsSafely c id at v found =
      let small = lookup-Below id _ c.wait_list at v.fresh found in
      let (w, e) = get_elem?-lt c.waiters at small in
      let alive : IsLive w.response = rw e at (lookup-AllLive c id c.wait_list at v.live found) in
      rw (e, receive_poll) (go w.response alive small)
    where
      go :
          (s : ResponseState)
          → IsLive s
          → at < length c.waiters
          → ReadsSafely c at (do
            (new, result) ← take_response s
            returns (update_response aw c at (λ _. new), result))
      go ResponseState.none h small = (
        update_response-Touches aw c at _,
        λ _.
            change-IsConsistent aw c _ at (update_response-Touches aw c at _)
              (λ _. rw (response_at-update_response aw c at (λ _. ResponseState.none) small) tt) v,
      )
      go (ResponseState.ready raw errc payload) h small =
          (update_response-Touches aw c at _, λ e. cc)
      go ResponseState.write_failed h small = (update_response-Touches aw c at _, λ e. cc)
      go ResponseState.pending_remove h small = absurd h

-- A call on a handle that does not panic; the handle and its entry go together.
abbrev pub Settles :
    {W : Type 0} {R : Type 0}
    → ℕ
    → List (ℕ × ℕ)
    → Outcome (RequestContext W × Option Receive × R)
    → Type 0
Settles id m (returns (d, state, result)) = IsConsistent d × (d.wait_list ≡ keep_handle id state m)
Settles id m panics = ⊥

module _ {W : Type 0} (aw : AtomicWaker W) {C : Type 0} (codec : C) where
  -- Every way on after `try_unregister` settles.
  unregister-Settles :
      {R : Type 0} (c d : RequestContext W) (id at : ℕ) (result : R)
      → IsConsistent c
      → lookup id c.wait_list ≡ some at
      → Touches at c d
      → Settles id c.wait_list
          (do e ← try_unregister aw d (some (handle_at id at)); returns (e, none, result))
  unregister-Settles c d id at result v found t =
      let (e, gone, v', m, _) = try_unregister-IsConsistent aw c d id at v found t in
      rw gone (v', m)

  poll_result-Settles :
      (c d : RequestContext W) (id at : ℕ) (result : Poll (Option Ready))
      → IsConsistent c
      → lookup id c.wait_list ≡ some at
      → Touches at c d
      → (result ≡ pending → IsConsistent d)
      → Settles id c.wait_list (poll_result aw codec d (handle_at id at) result)
  unfolding poll_result
  poll_result-Settles c d id at pending v found t stays =
      if-both (Settles id c.wait_list) d.expired (unregister-Settles c d id at _ v found t)
        (stays refl, t.wait_list)
  poll_result-Settles c d id at (ready (some (raw, errc, payload))) v found t stays =
      unregister-Settles c d id at _ v found t
  poll_result-Settles c d id at (ready none) v found t stays =
      unregister-Settles c d id at _ v found t

  try_recv_result-Settles :
      (c d : RequestContext W) (id at : ℕ) (result : Poll (Option Ready))
      → IsConsistent c
      → lookup id c.wait_list ≡ some at
      → Touches at c d
      → (result ≡ pending → IsConsistent d)
      → Settles id c.wait_list (try_recv_result aw codec d (handle_at id at) result)
  unfolding try_recv_result
  try_recv_result-Settles c d id at pending v found t stays = (stays refl, t.wait_list)
  try_recv_result-Settles c d id at (ready (some (raw, errc, payload))) v found t stays =
      unregister-Settles c d id at _ v found t
  try_recv_result-Settles c d id at (ready none) v found t stays =
      unregister-Settles c d id at _ v found t

  -- `poll` on the handle of a registered request.
  pub poll-Settles :
      (c : RequestContext W) (id at task : ℕ)
      → IsConsistent c
      → lookup id c.wait_list ≡ some at
      → Settles id c.wait_list (poll aw codec c (some (handle_at id at)) task)
  unfolding poll
  poll-Settles c id at task v found = go (receive_poll aw c' (handle_at id at)) (
      receive_poll-ReadsSafely aw c' id at (register-IsConsistent aw c at task v)
        (rw r.wait_list found))
    where
      c' : RequestContext W
      c' = register aw c at task

      r : Touches at c c'
      r = register-Touches aw c at task

      go :
          (o : Outcome (RequestContext W × Poll (Option Ready)))
          → ReadsSafely c' at o
          → Settles id c.wait_list
              (do (d, result) ← o; poll_result aw codec d (handle_at id at) result)
      go (returns (d, result)) (t, stays) =
          poll_result-Settles c d id at result v found (Touches-trans r t) stays
      go panics h = absurd h

  -- `try_recv` on the handle of a registered request.
  pub try_recv-Settles :
      (c : RequestContext W) (id at : ℕ)
      → IsConsistent c
      → lookup id c.wait_list ≡ some at
      → Settles id c.wait_list (try_recv aw codec c (some (handle_at id at)))
  unfolding try_recv
  try_recv-Settles c id at v found =
      go (receive_poll aw c (handle_at id at)) (receive_poll-ReadsSafely aw c id at v found)
    where
      go :
          (o : Outcome (RequestContext W × Poll (Option Ready)))
          → ReadsSafely c at o
          → Settles id c.wait_list
              (do (d, result) ← o; try_recv_result aw codec d (handle_at id at) result)
      go (returns (d, result)) (t, stays) = try_recv_result-Settles c d id at result v found t stays
      go panics h = absurd h
