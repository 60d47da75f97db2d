-- ===== src/Rpc/ReqRep/Safety.antt =====
-- No order of events makes the request context panic.
use rpc_it_rs.Base.{
  ℕ, ◌≡◌, refl, sym, ap, ◌∙◌, Option, none, some, List, [], ◌∷◌, get_elem?, inl, ◌>>=◌, inr,
  Option-cases, Outcome, returns, panics, if-both,
}
use rpc_it_rs.Base.Assoc.{lookup, remove}
use rpc_it_rs.Waker.{AtomicWaker}
use rpc_it_rs.Rpc.ReqRep.{RequestContext, Receive, try_allocate_new_request}
use rpc_it_rs.Rpc.ReqRep.Waiters.{Touches-refl}
use rpc_it_rs.Rpc.ReqRep.Invariant.{IsConsistent, new_context-IsConsistent}
use rpc_it_rs.Rpc.ReqRep.Preserve.{
  try_unregister-IsConsistent, deliver-IsConsistent, fail-IsConsistent, mark_expired-IsConsistent,
  mark_expired-wait_list, allocate-IsConsistent, allocate-wait_list, deliver-Touches, fail-Touches,
}
use rpc_it_rs.Rpc.ReqRep.Machine.{
  System, Event, Delivery, allocates, receives, write_fails, delivers, expires, polls, tries, drops,
  delivering, failing, new_system, keep_handle, add_handle, step, run, start_delivery, end_delivery,
  allocate_step, poll_step, try_step, drop_step,
}
use rpc_it_rs.Rpc.ReqRep.Polling.{Settles, poll-Settles, try_recv-Settles}

-- The live handles are the entries of the wait list.
pub record IsSafe {W : Type 0} (s : System W) : Type 0 where
  pub consistent : IsConsistent s.context
  pub owned : s.handles ≡ s.context.wait_list

abbrev pub Runs : {W : Type 0} → Outcome (System W) → Type 0
Runs (returns s) = IsSafe s
Runs panics = ⊥

module _ {W : Type 0} where
  bind-Runs :
      (o : Outcome (System W)) (f : System W → Outcome (System W))
      → Runs o
      → ((s : System W) → IsSafe s → Runs (f s))
      → Runs (o >>= f)
  bind-Runs (returns s) f v h = h s v
  bind-Runs panics f v h = absurd v

  Runs-returns : (o : Outcome (System W)) → Runs o → (s : System W) × (o ≡ returns s) × IsSafe s
  Runs-returns (returns s) v = (s, refl, v)
  Runs-returns panics v = absurd v

pub new_system-IsSafe : {W : Type 0} → IsSafe (new_system {W = W})
unfolding new_system
new_system-IsSafe = record { consistent = new_context-IsConsistent; owned = refl }

module _ {W : Type 0} (aw : AtomicWaker W) {C : Type 0} (codec : C) where
  end_delivery-IsConsistent :
      (c : RequestContext W) (d : Delivery)
      → IsConsistent c
      → IsConsistent (end_delivery aw c d) × ((end_delivery aw c d).wait_list ≡ c.wait_list)
  unfolding end_delivery
  end_delivery-IsConsistent c (delivering at raw errc payload) v =
      (deliver-IsConsistent aw c at raw errc payload v, (deliver-Touches aw c at _).wait_list)
  end_delivery-IsConsistent c (failing at) v =
      (fail-IsConsistent aw c at v, (fail-Touches aw c at).wait_list)

  start_delivery-IsSafe :
      (s : System W) (o : Option ℕ) (d : ℕ → Delivery) → IsSafe s → IsSafe (start_delivery s o d)
  unfolding start_delivery
  start_delivery-IsSafe s none d v = v
  start_delivery-IsSafe s (some at) d v = record { consistent = v.consistent; owned = v.owned }

  allocate_step-IsSafe : (s : System W) (id : ℕ) → IsSafe s → IsSafe (allocate_step aw s id)
  unfolding allocate_step
  allocate_step-IsSafe s id v = record {
    consistent = allocate-IsConsistent aw s.context id v.consistent;
    owned =
        ap (add_handle (try_allocate_new_request aw s.context id).1) v.owned
        ∙ sym (allocate-wait_list aw s.context id);
  }

  -- The end of a call on a handle.
  settle :
      {R : Type 0} (s : System W) (id : ℕ) (o : Outcome (RequestContext W × Option Receive × R))
      → s.handles ≡ s.context.wait_list
      → Settles id s.context.wait_list o
      → Runs (do
        (c, state, result) ← o
        returns (record s { context = c; handles = keep_handle id state s.handles }))
  settle s id (returns (c, none, result)) owned (v, m) = record {
    consistent = v;
    owned = ap (remove id) owned ∙ sym m;
  }
  settle s id (returns (c, some r, result)) owned (v, m) = record {
    consistent = v;
    owned = owned ∙ sym m;
  }
  settle s id panics owned h = absurd h

  drop_step-Runs :
      (s : System W) (id at : ℕ)
      → IsSafe s
      → lookup id s.context.wait_list ≡ some at
      → Runs (drop_step aw codec s id at)
  unfolding drop_step
  drop_step-Runs s id at v found =
      let (c, gone, v', m, _) =
        try_unregister-IsConsistent aw s.context s.context id at v.consistent found
          (Touches-refl aw s.context at) in
      rw gone (record { consistent = v'; owned = ap (remove id) v.owned ∙ sym m })

  -- A call on a handle happens only where the handle is there.
  at_handle :
      (s : System W) (id : ℕ) (f : ℕ → Outcome (System W))
      → IsSafe s
      → ((at : ℕ) → lookup id s.context.wait_list ≡ some at → Runs (f at))
      → Runs (elim (lookup id s.handles) [ none ↦ returns s | some at ↦ f at ])
  at_handle s id f v h = elim (Option-cases (lookup id s.handles)) [
    | inl e ↦ rw e v
    | inr (at, e) ↦ rw e (h at (ap (lookup id) (sym v.owned) ∙ e))
  ]

  -- No event panics or reaches `unreachable!`, and each keeps the system safe.
  step-Runs : (s : System W) (e : Event) → IsSafe s → Runs (step aw codec s e)
  unfolding step
  step-Runs s (allocates id) v = allocate_step-IsSafe s id v
  step-Runs s (receives id raw errc payload) v =
      if-both IsSafe s.context.expired v (start_delivery-IsSafe s _ _ v)
  step-Runs s (write_fails id) v = start_delivery-IsSafe s _ _ v
  step-Runs s (delivers i) v = elim (Option-cases (get_elem? s.in_flight i)) [
    | inl e ↦ rw (e, step) v
    | inr (d, e) ↦
        let (v', m) = end_delivery-IsConsistent s.context d v.consistent in
        rw (e, step) (record { consistent = v'; owned = v.owned ∙ sym m })
  ]
  step-Runs s expires v = record {
    consistent = mark_expired-IsConsistent aw s.context v.consistent;
    owned = v.owned ∙ sym (mark_expired-wait_list aw s.context);
  }
  step-Runs s (polls id task) v =
      at_handle s id (λ at. poll_step aw codec s id at task) v
        λ at found.
          unfold poll_step in
          settle s id _ v.owned (poll-Settles aw codec s.context id at task v.consistent found)
  step-Runs s (tries id) v =
      at_handle s id (λ at. try_step aw codec s id at) v
        λ at found.
          unfold try_step in
          settle s id _ v.owned (try_recv-Settles aw codec s.context id at v.consistent found)
  step-Runs s (drops id) v =
      at_handle s id (λ at. drop_step aw codec s id at) v λ at found. drop_step-Runs s id at v found

  run-Runs : (s : System W) (es : List Event) → IsSafe s → Runs (run aw codec s es)
  unfolding run
  run-Runs s [] v = v
  run-Runs s (e ∷ es) v =
      bind-Runs (step aw codec s e) _ (step-Runs s e v) (λ s' v'. run-Runs s' es v')

  -- From a new request context, every sequence of events runs to its end: no assertion fails, no
  -- `unreachable!` is reached. After it the ids on the wait list are distinct, each with a waiter
  -- of its own that was not read yet, and the entries of the wait list are exactly those of the live
  -- `ReceiveResponse` objects, in the same order.
  pub run-new_system :
      (es : List Event) → (s : System W) × (run aw codec new_system es ≡ returns s) × IsSafe s
  run-new_system es = Runs-returns _ (run-Runs new_system es new_system-IsSafe)
