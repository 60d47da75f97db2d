-- ===== src/Rpc/ReqRep/Machine.antt =====
-- The pending requests as a state machine: what the callers of the request context, the owners of
-- `ReceiveResponse` objects and the background runners may do, in any order. A runner looks a
-- waiter up under the lock of the wait list and writes to it later, so that the two halves of
-- `set_response` and of `set_request_write_failed` are separate events.
use rpc_it_rs.Base.{
  ℕ, Option, none, some, List, [], ◌∷◌, Outcome, returns, ◌>>=◌, get_elem?, erase_at, if◌then◌else◌,
}
use rpc_it_rs.Base.Assoc.{lookup, remove}
use rpc_it_rs.Defs.{Bytes, RangeType}
use rpc_it_rs.Codec.{ResponseError}
use rpc_it_rs.Waker.{AtomicWaker}
use rpc_it_rs.Rpc.Types.{ResponseState}
use rpc_it_rs.Rpc.ReqRep.{
  RequestContext, Receive, new_context, try_allocate_new_request, deliver, fail, mark_expired,
  try_unregister, poll, try_recv,
}

-- A runner that holds the address of a waiter and is about to write to it.
pub data Delivery : Type 0 where
  delivering : ℕ → Bytes → Option ResponseError → RangeType → Delivery
  failing : ℕ → Delivery

-- `handles` has the id and the waiter of each `ReceiveResponse` whose state is not `None`.
pub record System (W : Type 0) : Type 0 where
  pub context : RequestContext W
  pub handles : List (ℕ × ℕ)
  pub in_flight : List Delivery

pub data Event : Type 0 where
  -- `try_allocate_new_request` for a request id.
  allocates : ℕ → Event
  -- `set_response` up to the test of `expired`.
  receives : ℕ → Bytes → Option ResponseError → RangeType → Event
  -- `set_request_write_failed` up to the lookup.
  write_fails : ℕ → Event
  -- The second half of one of these two, for the runner at a place of the list.
  delivers : ℕ → Event
  -- `mark_expired`.
  expires : Event
  -- `ReceiveResponse::poll` by a task, `try_recv`, and the drop.
  polls : ℕ → ℕ → Event
  tries drops : ℕ → Event

unfoldable pub new_system : {W : Type 0} → System W
unfolding new_context
new_system = record { context = new_context; handles = []; in_flight = [] }

abbrev pub handle_at : ℕ → ℕ → Receive
handle_at id at = record { request_id = id; wait_obj = at }

abbrev pub add_handle : Option Receive → List (ℕ × ℕ) → List (ℕ × ℕ)
add_handle none handles = handles
add_handle (some r) handles = (r.request_id, r.wait_obj) ∷ handles

-- The handle of a call that left the state `None` is gone.
abbrev pub keep_handle : ℕ → Option Receive → List (ℕ × ℕ) → List (ℕ × ℕ)
keep_handle id none handles = remove id handles
keep_handle id (some r) handles = handles

unfoldable pub start_delivery : {W : Type 0} → System W → Option ℕ → (ℕ → Delivery) → System W
start_delivery s none d = s
start_delivery s (some at) d = record s { in_flight = d at ∷ s.in_flight }

module _ {W : Type 0} (aw : AtomicWaker W) where
  unfoldable pub end_delivery : RequestContext W → Delivery → RequestContext W
  end_delivery c (delivering at raw errc payload) =
      deliver aw c at (ResponseState.ready raw errc payload)
  end_delivery c (failing at) = fail aw c at

  unfoldable pub allocate_step : System W → ℕ → System W
  unfolding try_allocate_new_request
  allocate_step s id =
      let r = try_allocate_new_request aw s.context id in
      record s { context = r.0; handles = add_handle r.1 s.handles }

module _ {W : Type 0} (aw : AtomicWaker W) {C : Type 0} (codec : C) where
  unfoldable pub poll_step : System W → ℕ → ℕ → ℕ → Outcome (System W)
  unfolding poll
  poll_step s id at task = do
    (c, state, result) ← poll aw codec s.context (some (handle_at id at)) task
    returns (record s { context = c; handles = keep_handle id state s.handles })

  unfoldable pub try_step : System W → ℕ → ℕ → Outcome (System W)
  unfolding try_recv
  try_step s id at = do
    (c, state, result) ← try_recv aw codec s.context (some (handle_at id at))
    returns (record s { context = c; handles = keep_handle id state s.handles })

  unfoldable pub drop_step : System W → ℕ → ℕ → Outcome (System W)
  unfolding try_unregister
  drop_step s id at = do
    c ← try_unregister aw s.context (some (handle_at id at))
    returns (record s { context = c; handles = remove id s.handles })

  -- An event for a handle or a runner that is not there does not happen.
  unfoldable pub step : System W → Event → Outcome (System W)
  unfolding allocate_step poll_step try_step drop_step start_delivery end_delivery mark_expired
  step s (allocates id) = returns (allocate_step aw s id)
  step s (receives id raw errc payload) = returns (
      if s.context.expired
      then s
      else start_delivery s (lookup id s.context.wait_list) (λ at. delivering at raw errc payload))
  step s (write_fails id) = returns (start_delivery s (lookup id s.context.wait_list) failing)
  step s (delivers i) = elim (get_elem? s.in_flight i) [
    | none ↦ returns s
    | some d ↦
        returns
          (record s { context = end_delivery aw s.context d; in_flight = erase_at i s.in_flight })
  ]
  step s expires = returns (record s { context = mark_expired aw s.context })
  step s (polls id task) = elim (lookup id s.handles) [
    | none ↦ returns s
    | some at ↦ poll_step s id at task
  ]
  step s (tries id) = elim (lookup id s.handles) [ none ↦ returns s | some at ↦ try_step s id at ]
  step s (drops id) = elim (lookup id s.handles) [ none ↦ returns s | some at ↦ drop_step s id at ]

  unfoldable pub run : System W → List Event → Outcome (System W)
  unfolding step
  run s [] = returns s
  run s (e ∷ es) = do s' ← step s e; run s' es
