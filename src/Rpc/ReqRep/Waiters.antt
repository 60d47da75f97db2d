-- ===== src/Rpc/ReqRep/Waiters.antt =====
-- What the operations on one waiter leave alone.
use rpc_it_rs.Base.{
  ℕ, ◌<◌, ◌≡◌, ◌≢◌, refl, Option, none, some, List, length, get_elem?, set, length-set,
  get_elem?-set_self, get_elem?-set_ne, get_elem?-lt, lt_of_some, inl, inr, Option-cases, arith,
  sym, ap, ◌∙◌,
}
use rpc_it_rs.Rpc.Types.{ResponseState}
use rpc_it_rs.Waker.{AtomicWaker}
use rpc_it_rs.Rpc.ReqRep.{Waiter, RequestContext, wake, update_response, register, drop_waker}

-- The response in the waiter at an address.
abbrev pub response_of : {W : Type 0} → Option (Waiter W) → ResponseState
response_of none = ResponseState.none
response_of (some w) = w.response

abbrev pub response_at : {W : Type 0} → RequestContext W → ℕ → ResponseState
response_at c at = response_of (get_elem? c.waiters at)

-- `d` is `c` but for the wakers, the woken tasks, and the response of the waiter at `at`.
pub record Touches {W : Type 0} (at : ℕ) (c d : RequestContext W) : Type 0 where
  pub wait_list : d.wait_list ≡ c.wait_list
  pub expired : d.expired ≡ c.expired
  pub size : length d.waiters ≡ length c.waiters
  pub others : (j : ℕ) → j ≢ at → response_at d j ≡ response_at c j

module _ {W : Type 0} {at : ℕ} {c d e : RequestContext W} where
  pub Touches-trans : Touches at c d → Touches at d e → Touches at c e
  Touches-trans p q = record {
    wait_list = q.wait_list ∙ p.wait_list;
    expired = q.expired ∙ p.expired;
    size = q.size ∙ p.size;
    others = λ j h. q.others j h ∙ p.others j h;
  }

module _ {W : Type 0} (aw : AtomicWaker W) (c : RequestContext W) (at : ℕ) where
  set_others :
      (w : Waiter W) (j : ℕ)
      → j ≢ at
      → response_of (get_elem? (set c.waiters at w) j) ≡ response_at c j
  set_others w j h = ap response_of (get_elem?-set_ne c.waiters at j w (λ e. h (sym e)))

  set_self :
      (w : Waiter W)
      → at < length c.waiters
      → response_of (get_elem? (set c.waiters at w) at) ≡ w.response
  set_self w h = ap response_of (get_elem?-set_self c.waiters at w h)

  touch : (w : Waiter W) → Touches at c (record c { waiters = set c.waiters at w })
  touch w = record {
    wait_list = refl;
    expired = refl;
    size = length-set c.waiters at w;
    others = set_others w;
  }

  touch_woken :
      (w : Waiter W) (woken : List ℕ)
      → Touches at c (record c { waiters = set c.waiters at w; woken = woken })
  touch_woken w woken = record {
    wait_list = refl;
    expired = refl;
    size = length-set c.waiters at w;
    others = set_others w;
  }

  pub Touches-refl : Touches at c c
  Touches-refl = record { wait_list = refl; expired = refl; size = refl; others = λ j h. refl }

  pub update_response-Touches :
      (f : ResponseState → ResponseState) → Touches at c (update_response aw c at f)
  unfolding update_response
  update_response-Touches f = elim (Option-cases (get_elem? c.waiters at)) [
    | inl e ↦ rw (e, update_response) Touches-refl
    | inr (w, e) ↦ rw (e, update_response) (touch (record w { response = f w.response }))
  ]

  pub wake-Touches : Touches at c (wake aw c at)
  unfolding wake
  wake-Touches = elim (Option-cases (get_elem? c.waiters at)) [
    | inl e ↦ rw (e, wake) Touches-refl
    | inr (w, e) ↦ rw (e, wake) (touch_woken _ _)
  ]

  pub register-Touches : (task : ℕ) → Touches at c (register aw c at task)
  unfolding register
  register-Touches task = elim (Option-cases (get_elem? c.waiters at)) [
    | inl e ↦ rw (e, register) Touches-refl
    | inr (w, e) ↦ rw (e, register) (touch _)
  ]

  pub drop_waker-Touches : Touches at c (drop_waker aw c at)
  unfolding drop_waker
  drop_waker-Touches = elim (Option-cases (get_elem? c.waiters at)) [
    | inl e ↦ rw (e, drop_waker) Touches-refl
    | inr (w, e) ↦ rw (e, drop_waker) (touch _)
  ]

  -- The response of the waiter itself: only `update_response` changes it.
  pub response_at-update_response :
      (f : ResponseState → ResponseState)
      → at < length c.waiters
      → response_at (update_response aw c at f) at ≡ f (response_at c at)
  unfolding update_response
  response_at-update_response f h = elim (Option-cases (get_elem? c.waiters at)) [
    | inl e ↦ ground (arith, get_elem?-lt c.waiters at h)
    | inr (w, e) ↦ rw (e, update_response) (set_self _ h)
  ]

  pub response_at-wake : response_at (wake aw c at) at ≡ response_at c at
  unfolding wake
  response_at-wake = elim (Option-cases (get_elem? c.waiters at)) [
    | inl e ↦ rw (e, wake) (rw e)
    | inr (w, e) ↦ rw (e, wake) (set_self _ (lt_of_some c.waiters at e))
  ]

  pub response_at-register : (task : ℕ) → response_at (register aw c at task) at ≡ response_at c at
  unfolding register
  response_at-register task = elim (Option-cases (get_elem? c.waiters at)) [
    | inl e ↦ rw (e, register) (rw e)
    | inr (w, e) ↦ rw (e, register) (set_self _ (lt_of_some c.waiters at e))
  ]
