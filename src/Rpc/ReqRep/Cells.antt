-- ===== src/Rpc/ReqRep/Cells.antt =====
-- Operations on the waiter of one request, and what a poll of it returns.
use rpc_it_rs.Base.{
  ℕ, ◌≡◌, refl, ap, ◌∙◌, true, false, Option, none, some, ◌∷◌, get_elem?, set, lt_of_some, Poll,
  pending, ready, ◌>>=◌, get_elem?-set_self, Outcome, returns, panics, err, map_err,
}
use rpc_it_rs.Base.Assoc.{lookup, remove}
use rpc_it_rs.Defs.{Bytes, RangeType}
use rpc_it_rs.Codec.{ResponseError}
use rpc_it_rs.Rpc.Types.{ResponseState, ResponseReceiveError, closed}
use rpc_it_rs.Waker.{AtomicWaker, IsAtomicWaker}
use rpc_it_rs.Rpc.ReqRep.{
  Waiter, RequestContext, update_response, register, drop_waker, free_request_id, try_unregister,
  Received, make_response, Ready, receive_poll, take_response, poll_result, poll, wake,
}
use rpc_it_rs.Rpc.ReqRep.Waiters.{drop_waker-Touches}
use rpc_it_rs.Rpc.ReqRep.Machine.{handle_at}

module _ {W : Type 0} where
  abbrev pub cell : W → ResponseState → Waiter W
  cell k s = record { waker = k; response = s }

  -- The context with another waiter at an address.
  abbrev pub put : RequestContext W → ℕ → Waiter W → RequestContext W
  put c at w = record c { waiters = set c.waiters at w }

  pub get_elem?-put :
      (c : RequestContext W) (at : ℕ) (w u : Waiter W)
      → get_elem? c.waiters at ≡ some w
      → get_elem? (put c at u).waiters at ≡ some u
  get_elem?-put c at w u e = get_elem?-set_self c.waiters at u (lt_of_some c.waiters at e)

module _ {W : Type 0} (aw : AtomicWaker W) where
  register_at :
      (c : RequestContext W) (at task : ℕ) (k : W) (s : ResponseState)
      → get_elem? c.waiters at ≡ some (cell k s)
      → register aw c at task ≡ put c at (cell (aw.register k task) s)
  unfolding register
  register_at c at task k s e = rw (e, register)

  update_response_at :
      (c : RequestContext W) (at : ℕ) (f : ResponseState → ResponseState) (k : W)
      (s : ResponseState)
      → get_elem? c.waiters at ≡ some (cell k s)
      → update_response aw c at f ≡ put c at (cell k (f s))
  unfolding update_response
  update_response_at c at f k s e = rw (e, update_response)

  receive_poll_at :
      (c : RequestContext W) (id at : ℕ) (k : W) (s : ResponseState)
      → get_elem? c.waiters at ≡ some (cell k s)
      → receive_poll aw c (handle_at id at)
        ≡ (do (new, result) ← take_response s; returns (update_response aw c at (λ _. new), result))
  unfolding receive_poll
  receive_poll_at c id at k s e = rw (e, receive_poll)

  -- Waking a waiter with a registered task wakes that task.
  pub wake_at :
      (c : RequestContext W) (at task : ℕ) (k : W) (s : ResponseState)
      → IsAtomicWaker aw
      → get_elem? c.waiters at ≡ some (cell (aw.register k task) s)
      → (wake aw c at).woken ≡ task ∷ c.woken
  unfolding wake
  wake_at c at task k s laws e = rw (e, wake) (rw (laws.take-register k task))

  pub woken_cell :
      (c : RequestContext W) (at : ℕ) (k : W) (s : ResponseState)
      → get_elem? c.waiters at ≡ some (cell k s)
      → get_elem? (wake aw c at).waiters at ≡ some (cell (aw.take k).0 s)
  unfolding wake
  woken_cell c at k s e = rw (e, wake) (get_elem?-put c at _ _ e)

  -- The waiter after a response was written to it.
  pub written_cell :
      (c : RequestContext W) (at : ℕ) (f : ResponseState → ResponseState) (k : W)
      (s : ResponseState)
      → get_elem? c.waiters at ≡ some (cell k s)
      → get_elem? (wake aw (update_response aw c at f) at).waiters at
        ≡ some (cell (aw.take k).0 (f s))
  written_cell c at f k s e =
      rw (update_response_at c at f k s e)
        (woken_cell (put c at (cell k (f s))) at k (f s) (get_elem?-put c at _ _ e))

  pub unregisters :
      (c : RequestContext W) (id at : ℕ)
      → lookup id c.wait_list ≡ some at
      → (d : RequestContext W) × (try_unregister aw c (some (handle_at id at)) ≡ returns d)
        × (d.wait_list ≡ remove id c.wait_list)
  unfolding try_unregister free_request_id
  unregisters c id at found =
      let t = drop_waker-Touches aw c at in
      let c' : RequestContext W = drop_waker aw c at in
      let listed : lookup id c'.wait_list ≡ some at = rw t.wait_list found in
      (
        record c' { wait_list = remove id c'.wait_list },
        rw (listed, free_request_id),
        ap (remove id) t.wait_list,
      )

  pub write_and_wake :
      (c : RequestContext W) (at task : ℕ) (f : ResponseState → ResponseState) (s : ResponseState)
      (k : W)
      → IsAtomicWaker aw
      → get_elem? c.waiters at ≡ some (cell (aw.register k task) s)
      → (wake aw (update_response aw c at f) at).woken ≡ task ∷ c.woken
  write_and_wake c at task f s k laws e =
      rw (update_response_at c at f _ s e)
        (wake_at (put c at (cell _ (f s))) at task k (f s) laws (get_elem?-put c at _ _ e))

-- The task `task` is registered on the request `id`, which has no response yet, in a context that is
-- not expired.
pub record Waits {W : Type 0} (aw : AtomicWaker W) (c : RequestContext W) (id at task : ℕ)
    : Type 0 where
  pub before : W
  pub registered : get_elem? c.waiters at ≡ some (cell (aw.register before task) ResponseState.none)
  pub listed : lookup id c.wait_list ≡ some at
  pub alive : c.expired ≡ false

module _ {W : Type 0} (aw : AtomicWaker W) {C : Type 0} (codec : C) where
  -- A poll while there is no response and the context is not expired returns `Pending`.
  pub poll_pending :
      (c : RequestContext W) (id at task : ℕ) (k : W)
      → get_elem? c.waiters at ≡ some (cell k ResponseState.none)
      → lookup id c.wait_list ≡ some at
      → c.expired ≡ false
      → (d : RequestContext W) × (poll aw codec c (some (handle_at id at)) task
          ≡ returns (d, some (handle_at id at), pending))
        × Waits aw d id at task
        × (d.wait_list ≡ c.wait_list)
        × (d.woken ≡ c.woken)
  unfolding poll poll_result take_response
  poll_pending c id at task k e found live = (
    d,
    rw (
      register_at aw c at task k _ e,
      receive_poll_at aw c1 id at _ _ e1,
      update_response_at aw c1 at _ _ _ e1,
      live,
    ),
    record { before = k; registered = get_elem?-put c1 at _ _ e1; listed = found; alive = live },
    refl,
    refl,
  )
    where
      u : Waiter W
      u = cell (aw.register k task) ResponseState.none

      c1 : RequestContext W
      c1 = put c at u

      e1 : get_elem? c1.waiters at ≡ some u
      e1 = get_elem?-put c at _ u e

      d : RequestContext W
      d = put c1 at u

  -- The context behind a read that leaves `new` in place of `s`.
  abbrev read : RequestContext W → ℕ → ℕ → W → ResponseState → ResponseState → RequestContext W
  read c at task k s new =
      put (put c at (cell (aw.register k task) s)) at (cell (aw.register k task) new)

  poll_at :
      (c : RequestContext W) (id at task : ℕ) (k : W) (s : ResponseState)
      → get_elem? c.waiters at ≡ some (cell k s)
      → poll aw codec c (some (handle_at id at)) task ≡ (do
        (new, result) ← take_response s
        poll_result aw codec (read c at task k s new) (handle_at id at) result)
  unfolding poll
  poll_at c id at task k s e =
      rw (register_at aw c at task k s e, receive_poll_at aw c1 id at _ _ e1) (go (take_response s))
    where
      c1 : RequestContext W
      c1 = put c at (cell (aw.register k task) s)

      e1 : get_elem? c1.waiters at ≡ some (cell (aw.register k task) s)
      e1 = get_elem?-put c at _ _ e

      go :
          (o : Outcome (ResponseState × Poll (Option Ready)))
          → (do
            (d, result) ← (do
              (new, result) ← o
              returns (update_response aw c1 at (λ _. new), result))
            poll_result aw codec d (handle_at id at) result)
            ≡ (do
              (new, result) ← o
              poll_result aw codec
                  (put c1 at (cell (aw.register k task) new))
                  (handle_at id at)
                  result)
      go (returns (new, result)) = rw (update_response_at aw c1 at (λ _. new) _ _ e1)
      go panics = refl

  -- A poll that ends the wait unregisters the request.
  abbrev pub Ends : RequestContext W → ℕ → ℕ → ℕ → Received aw codec → Type 0
  Ends c id at task result =
      (d : RequestContext W) × (poll aw codec c (some (handle_at id at)) task
        ≡ returns (d, none, ready result))
      × (d.wait_list ≡ remove id c.wait_list)

  pub poll_ready :
      (c : RequestContext W) (id at task : ℕ) (k : W) (raw : Bytes) (errc : Option ResponseError)
      (payload : RangeType)
      → get_elem? c.waiters at ≡ some (cell k (ResponseState.ready raw errc payload))
      → lookup id c.wait_list ≡ some at
      → Ends c id at task
          (map_err ResponseReceiveError.response (make_response codec raw payload errc))
  unfolding poll_result take_response
  poll_ready c id at task k raw errc payload e found =
      let (d, gone, m) =
        unregisters aw
          (read c at task k (ResponseState.ready raw errc payload) ResponseState.pending_remove) id
          at found in
      (d, poll_at c id at task k _ e ∙ rw gone, m)

  pub poll_failed :
      (c : RequestContext W) (id at task : ℕ) (k : W)
      → get_elem? c.waiters at ≡ some (cell k ResponseState.write_failed)
      → lookup id c.wait_list ≡ some at
      → Ends c id at task (err closed)
  unfolding poll_result take_response
  poll_failed c id at task k e found =
      let (d, gone, m) =
        unregisters aw (read c at task k ResponseState.write_failed ResponseState.write_failed) id
          at found in
      (d, poll_at c id at task k _ e ∙ rw gone, m)

  pub poll_expired :
      (c : RequestContext W) (id at task : ℕ) (k : W)
      → get_elem? c.waiters at ≡ some (cell k ResponseState.none)
      → lookup id c.wait_list ≡ some at
      → c.expired ≡ true
      → Ends c id at task (err closed)
  unfolding poll_result take_response
  poll_expired c id at task k e found dead =
      let (d, gone, m) =
        unregisters aw (read c at task k ResponseState.none ResponseState.none) id at found in
      (d, poll_at c id at task k _ e ∙ rw (gone, dead), m)
