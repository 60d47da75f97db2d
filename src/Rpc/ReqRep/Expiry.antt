-- ===== src/Rpc/ReqRep/Expiry.antt =====
-- `mark_expired`: every waiting task is woken, and nothing is registered or delivered any more.
use mathlib.Core.List.{Mem, mem-cons_self, mem-cons_of_mem}
use rpc_it_rs.Base.{
  ℕ, ◌≡◌, ◌≢◌, ap, ◌∙◌, true, Option, none, some, List, [], ◌∷◌, get_elem?, inl, get_elem?-set_ne,
  ==_iff, ◌==◌, inr, Option-cases, Bool-cases, arith, err,
}
use rpc_it_rs.Base.Assoc.{lookup, lookup-cons}
use rpc_it_rs.Defs.{Bytes, RangeType}
use rpc_it_rs.Codec.{ResponseError}
use rpc_it_rs.Rpc.Types.{ResponseState, closed}
use rpc_it_rs.Waker.{AtomicWaker, IsAtomicWaker}
use rpc_it_rs.Rpc.ReqRep.{
  RequestContext, wake, wake_task, wake_all, mark_expired, set_response, try_allocate_new_request,
}
use rpc_it_rs.Rpc.ReqRep.Invariant.{Below, lookup-Below, IsConsistent}
use rpc_it_rs.Rpc.ReqRep.Preserve.{wake_all-wait_list}
use rpc_it_rs.Rpc.ReqRep.Cells.{cell, wake_at, woken_cell, Ends, poll_expired, Waits}

module _ {W : Type 0} (aw : AtomicWaker W) where
  wake_task-Mem : (o : Option ℕ) (t : ℕ) (l : List ℕ) → Mem t l → Mem t (wake_task o l)
  wake_task-Mem none t l m = m
  wake_task-Mem (some u) t l m = mem-cons_of_mem _ m

  wake-Mem : (c : RequestContext W) (at t : ℕ) → Mem t c.woken → Mem t (wake aw c at).woken
  unfolding wake
  wake-Mem c at t m = elim (Option-cases (get_elem? c.waiters at)) [
    | inl e ↦ rw (e, wake) m
    | inr (w, e) ↦ rw (e, wake) (wake_task-Mem _ t c.woken m)
  ]

  wake_all-Mem :
      (m : List (ℕ × ℕ)) (c : RequestContext W) (t : ℕ)
      → Mem t c.woken
      → Mem t (wake_all aw m c).woken
  unfolding wake_all
  wake_all-Mem [] c t h = h
  wake_all-Mem ((id, at) ∷ m) c t h = wake_all-Mem m (wake aw c at) t (wake-Mem c at t h)

  wake_other :
      (c : RequestContext W) (i j : ℕ)
      → i ≢ j
      → get_elem? (wake aw c i).waiters j ≡ get_elem? c.waiters j
  unfolding wake
  wake_other c i j h = elim (Option-cases (get_elem? c.waiters i)) [
    | inl e ↦ rw (e, wake)
    | inr (w, e) ↦ rw (e, wake) (get_elem?-set_ne c.waiters i j _ h)
  ]

  -- The task that is registered in a waiter of the list is woken.
  wake_all_wakes :
      (m : List (ℕ × ℕ)) (c : RequestContext W) (id at n task : ℕ) (k : W) (s : ResponseState)
      → IsAtomicWaker aw
      → lookup id m ≡ some at
      → Below n m
      → get_elem? c.waiters at ≡ some (cell (aw.register k task) s)
      → Mem task (wake_all aw m c).woken
  unfolding wake_all
  wake_all_wakes [] c id at n task k s laws found b e = cc
  wake_all_wakes ((i, a) ∷ m) c id at n task k s laws found b e =
      elim (lookup-cons id i a at m found) [
        | inl (h, p) ↦
            wake_all-Mem m (wake aw c a) task
              (rw p (rw (wake_at aw c at task k s laws e) mem-cons_self))
        | inr (h, p) ↦
            wake_all_wakes m (wake aw c a) id at a task k s laws p b.1
              (wake_other c a at (λ q. omega (arith, lookup-Below id a m at b.1 p)) ∙ e)
      ]

  -- Waking leaves the response.
  wake_all-cell :
      (m : List (ℕ × ℕ)) (c : RequestContext W) (at : ℕ) (k : W) (s : ResponseState)
      → get_elem? c.waiters at ≡ some (cell k s)
      → (k' : W) × (get_elem? (wake_all aw m c).waiters at ≡ some (cell k' s))
  unfolding wake_all
  wake_all-cell [] c at k s e = (k, e)
  wake_all-cell ((i, a) ∷ m) c at k s e = elim (Bool-cases (a == at)) [
    | inl h ↦
        wake_all-cell m (wake aw c a) at (aw.take k).0 s
          (rw ((==_iff a at).0 h) (woken_cell aw c at k s e))
    | inr h ↦
        wake_all-cell m (wake aw c a) at k s (wake_other c a at (λ p. cc ((==_iff a at).1 p)) ∙ e)
  ]

module _ {W : Type 0} (aw : AtomicWaker W) where
  marked : (c : RequestContext W) → (mark_expired aw c).expired ≡ true
  unfolding mark_expired
  marked c = elim (Bool-cases c.expired) [
    | inl e ↦ simp e
    | inr e ↦ simp e (wake_all-wait_list aw c.wait_list (record c { expired = true })).1
  ]

  -- After `mark_expired` no request is registered any more, every response is handed back to the
  -- runner that brought it, and marking again changes nothing.
  pub mark_expired_refuses :
      (c : RequestContext W) (id : ℕ) (raw : Bytes) (payload : RangeType)
      (errc : Option ResponseError)
      → let d = mark_expired aw c in
        (try_allocate_new_request aw d id ≡ (d, none))
        × (set_response aw d id raw payload errc ≡ (d, err raw))
        × (mark_expired aw d ≡ d)
  mark_expired_refuses c id raw payload errc =
      let e = marked c in
      (
        unfold try_allocate_new_request in simp e,
        refuses (mark_expired aw c) e,
        marked_twice (mark_expired aw c) e,
      )
    where
      refuses :
          (d : RequestContext W)
          → d.expired ≡ true
          → set_response aw d id raw payload errc ≡ (d, err raw)
      refuses d e = elim (Option-cases (lookup id d.wait_list)) [
        | inl p ↦ unfold set_response in rw (p, set_response)
        | inr (at, p) ↦ unfold set_response in rw (p, set_response) (simp e)
      ]

      marked_twice : (d : RequestContext W) → d.expired ≡ true → mark_expired aw d ≡ d
      marked_twice d e = unfold mark_expired in simp e

module _ {W : Type 0} (aw : AtomicWaker W) {C : Type 0} (codec : C) where
  -- `mark_expired` wakes every task that waits for a response. The next poll of such a request, by
  -- any task, returns `Closed` and frees the id.
  pub mark_expired_wakes :
      (c : RequestContext W) (id at task later : ℕ)
      → IsAtomicWaker aw
      → IsConsistent c
      → Waits aw c id at task
      → let d = mark_expired aw c in Mem task d.woken × Ends aw codec d id at later (err closed)
  unfolding mark_expired
  mark_expired_wakes c id at task later laws v w = simp w.alive (
    wake_all_wakes aw c.wait_list c' id at _ task _ _ laws w.listed v.fresh w.registered,
    poll_expired aw codec (wake_all aw c.wait_list c') id at later after.0 after.1
        (ap (lookup id) (wake_all-wait_list aw c.wait_list c').0 ∙ w.listed)
        (wake_all-wait_list aw c.wait_list c').1,
  )
    where
      c' : RequestContext W
      c' = record c { expired = true }

      after :
          (k : W) × (get_elem? (wake_all aw c.wait_list c').waiters at
            ≡ some (cell k ResponseState.none))
      after = wake_all-cell aw c.wait_list c' at _ _ w.registered
