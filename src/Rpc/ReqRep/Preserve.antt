-- ===== src/Rpc/ReqRep/Preserve.antt =====
-- What each operation on the request context does to its invariant.
use rpc_it_rs.Base.{
  ℕ, ◌≤◌, ◌≡◌, refl, sym, ap, subst, ◌∙◌, true, Option, some, List, [], ◌∷◌, ◌++◌, length,
  get_elem?, length-append, get_elem?-append_left, lt_of_some, get_elem?-append_last, inl, inr,
  Option-cases, Bool-cases, if-both, ◌==◌, ==_iff, arith, returns,
}
use rpc_it_rs.Base.Assoc.{lookup, remove, remove-Distinct}
use rpc_it_rs.Defs.{Bytes, RangeType}
use rpc_it_rs.Codec.{ResponseError}
use rpc_it_rs.Rpc.Types.{ResponseState}
use rpc_it_rs.Waker.{AtomicWaker}
use rpc_it_rs.Rpc.ReqRep.{
  Waiter, RequestContext, Receive, wake, update_response, register, drop_waker, wake_all,
  try_allocate_new_request, free_request_id, deliver, fail, overwrite, mark_expired, try_unregister,
}
use rpc_it_rs.Rpc.ReqRep.Waiters.{
  response_at, Touches, Touches-trans, update_response-Touches, wake-Touches, register-Touches,
  drop_waker-Touches, response_at-update_response, response_at-wake, response_at-register,
}
use rpc_it_rs.Rpc.ReqRep.Machine.{add_handle}
use rpc_it_rs.Rpc.ReqRep.Invariant.{
  Below, IsLive, AllLive, IsConsistent, remove-Below, AllLive-map, AllLive-remove,
}

-- What a `ReceiveResponse` may do to its own waiter before it unregisters does no harm.
module _ {W : Type 0} (aw : AtomicWaker W) where
  pub try_unregister-IsConsistent :
      (c d : RequestContext W) (id at : ℕ)
      → IsConsistent c
      → lookup id c.wait_list ≡ some at
      → Touches at c d
      → (e : RequestContext W) × (try_unregister aw d
            (some (record { request_id = id; wait_obj = at }))
          ≡ returns e)
        × IsConsistent e
        × (e.wait_list ≡ remove id c.wait_list)
        × (e.expired ≡ c.expired)
  unfolding try_unregister free_request_id
  try_unregister-IsConsistent c d id at v found t =
      let u = Touches-trans t (drop_waker-Touches aw d at) in
      let d' : RequestContext W = drop_waker aw d at in
      let listed : lookup id d'.wait_list ≡ some at = rw u.wait_list found in
      (
        record d' { wait_list = remove id d'.wait_list },
        rw (listed, free_request_id),
        record {
          distinct = rw u.wait_list (remove-Distinct id c.wait_list v.distinct);
          fresh = rw (u.size, u.wait_list) (remove-Below id _ c.wait_list v.fresh);
          live =
              rw u.wait_list
                (AllLive-remove c d' id _ at c.wait_list found v.fresh u.others v.live);
        },
        ap (remove id) u.wait_list,
        u.expired,
      )

  pub change-IsConsistent :
      (c d : RequestContext W) (at : ℕ)
      → Touches at c d
      → (IsLive (response_at c at) → IsLive (response_at d at))
      → IsConsistent c
      → IsConsistent d
  change-IsConsistent c d at t own v = record {
    distinct = rw t.wait_list v.distinct;
    fresh = rw (t.size, t.wait_list) v.fresh;
    live = rw t.wait_list (AllLive-map c d c.wait_list each v.live);
  }
    where
      each : (j : ℕ) → IsLive (response_at c j) → IsLive (response_at d j)
      each j h = elim (Bool-cases (j == at)) [
        | inl e ↦
            let p = (==_iff j at).0 e in
            subst (λ x. IsLive (response_at d x)) (sym p)
              (own (subst (λ x. IsLive (response_at c x)) p h))
        | inr e ↦ rw (t.others j (λ p. cc ((==_iff j at).1 p))) h
      ]

  -- Writing a response and waking the task, by a rule that keeps a live waiter live.
  write-IsConsistent :
      (c : RequestContext W) (at : ℕ) (f : ResponseState → ResponseState)
      → ((old : ResponseState) → IsLive old → IsLive (f old))
      → IsConsistent c
      → IsConsistent (wake aw (update_response aw c at f) at)
  write-IsConsistent c at f keep v =
      change-IsConsistent c _ at
        (Touches-trans (update_response-Touches aw c at f) (wake-Touches aw _ at))
        (λ h. rw (response_at-wake aw (update_response aw c at f) at) (written h)) v
    where
      written : IsLive (response_at c at) → IsLive (response_at (update_response aw c at f) at)
      written h = elim (Option-cases (get_elem? c.waiters at)) [
        | inl e ↦ unfold update_response in rw (e, update_response) (rw e tt)
        | inr (w, e) ↦
            rw (response_at-update_response aw c at f (lt_of_some c.waiters at e)) (keep _ h)
      ]

  pub deliver-Touches :
      (c : RequestContext W) (at : ℕ) (new : ResponseState) → Touches at c (deliver aw c at new)
  unfolding deliver
  deliver-Touches c at new =
      Touches-trans (update_response-Touches aw c at _) (wake-Touches aw _ at)

  pub fail-Touches : (c : RequestContext W) (at : ℕ) → Touches at c (fail aw c at)
  unfolding fail
  fail-Touches c at = Touches-trans (update_response-Touches aw c at _) (wake-Touches aw _ at)

  pub deliver-IsConsistent :
      (c : RequestContext W) (at : ℕ) (raw : Bytes) (errc : Option ResponseError)
      (payload : RangeType)
      → IsConsistent c
      → IsConsistent (deliver aw c at (ResponseState.ready raw errc payload))
  unfolding deliver overwrite
  deliver-IsConsistent c at raw errc payload v = write-IsConsistent c at _ keep v
    where
      keep :
          (old : ResponseState)
          → IsLive old
          → IsLive (overwrite old (ResponseState.ready raw errc payload))
      keep ResponseState.none h = tt
      keep (ResponseState.ready _ _ _) h = tt
      keep ResponseState.write_failed h = tt
      keep ResponseState.pending_remove h = h

  pub fail-IsConsistent :
      (c : RequestContext W) (at : ℕ) → IsConsistent c → IsConsistent (fail aw c at)
  unfolding fail
  fail-IsConsistent c at v = write-IsConsistent c at _ (λ old h. tt) v

  pub wake-IsConsistent :
      (c : RequestContext W) (at : ℕ) → IsConsistent c → IsConsistent (wake aw c at)
  wake-IsConsistent c at v =
      change-IsConsistent c _ at (wake-Touches aw c at) (λ h. rw (response_at-wake aw c at) h) v

  pub register-IsConsistent :
      (c : RequestContext W) (at task : ℕ) → IsConsistent c → IsConsistent (register aw c at task)
  register-IsConsistent c at task v =
      change-IsConsistent c _ at (register-Touches aw c at task)
        (λ h. rw (response_at-register aw c at task) h) v

  pub wake_all-IsConsistent :
      (m : List (ℕ × ℕ)) (c : RequestContext W) → IsConsistent c → IsConsistent (wake_all aw m c)
  unfolding wake_all
  wake_all-IsConsistent [] c v = v
  wake_all-IsConsistent ((id, at) ∷ m) c v =
      wake_all-IsConsistent m (wake aw c at) (wake-IsConsistent c at v)

  pub wake_all-wait_list :
      (m : List (ℕ × ℕ)) (c : RequestContext W)
      → ((wake_all aw m c).wait_list ≡ c.wait_list) × ((wake_all aw m c).expired ≡ c.expired)
  unfolding wake_all
  wake_all-wait_list [] c = (refl, refl)
  wake_all-wait_list ((id, at) ∷ m) c =
      let t = wake-Touches aw c at in
      let rest = wake_all-wait_list m (wake aw c at) in (rest.0 ∙ t.wait_list, rest.1 ∙ t.expired)

  pub mark_expired-IsConsistent :
      (c : RequestContext W) → IsConsistent c → IsConsistent (mark_expired aw c)
  unfolding mark_expired
  mark_expired-IsConsistent c v = if-both IsConsistent c.expired v (
      wake_all-IsConsistent c.wait_list c' (record {
        distinct = v.distinct;
        fresh = v.fresh;
        live = AllLive-map c c' c.wait_list (λ j h. h) v.live;
      }))
    where
      c' : RequestContext W
      c' = record c { expired = true }

  pub mark_expired-wait_list : (c : RequestContext W) → (mark_expired aw c).wait_list ≡ c.wait_list
  unfolding mark_expired
  mark_expired-wait_list c =
      if-both (λ (d : RequestContext W). d.wait_list ≡ c.wait_list) c.expired refl
        (wake_all-wait_list c.wait_list (record c { expired = true })).0

  -- A new waiter stands behind the others.
  AllLive-append :
      (c : RequestContext W) (d : RequestContext W) (w : Waiter W) (n : ℕ) (l : List (ℕ × ℕ))
      → d.waiters ≡ c.waiters ++ w ∷ []
      → n ≤ length c.waiters
      → Below n l
      → AllLive c l
      → AllLive d l
  AllLive-append c d w n [] e h b v = tt
  AllLive-append c d w n ((id, at) ∷ l) e h b v = (
    rw (e, get_elem?-append_left c.waiters (w ∷ []) at (omega arith)) v.0,
    AllLive-append c d w at l e (omega arith) b.1 v.1,
  )

  pub allocate-IsConsistent :
      (c : RequestContext W) (id : ℕ)
      → IsConsistent c
      → IsConsistent (try_allocate_new_request aw c id).0
  unfolding try_allocate_new_request
  allocate-IsConsistent c id v =
      if-both (λ (r : RequestContext W × Option Receive). IsConsistent r.0) c.expired v
        (elim (Option-cases (lookup id c.wait_list)) [
          | inl e ↦ rw e (record {
            distinct = (e, v.distinct);
            fresh = (rw length-append (omega arith), v.fresh);
            live = (
              rw (get_elem?-append_last c.waiters) tt,
              AllLive-append c (record c { waiters = c.waiters ++ fresh ∷ [] }) fresh _ c.wait_list
                  refl (omega arith) v.fresh v.live,
            );
          })
          | inr (at, e) ↦ rw e v
        ])
    where
      fresh : Waiter W
      fresh = record { waker = aw.new; response = ResponseState.none }

  -- An allocation registers the handle that it returns, and nothing else.
  pub allocate-wait_list :
      (c : RequestContext W) (id : ℕ)
      → let (d, r) = try_allocate_new_request aw c id in d.wait_list ≡ add_handle r c.wait_list
  unfolding try_allocate_new_request
  allocate-wait_list c id = ground arith
