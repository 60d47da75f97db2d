-- ===== src/Rpc/ReqRep.antt =====
-- src/rpc/req_rep.rs: pending requests. A `Waiter` is shared by the wait list, by the
-- `ReceiveResponse` of the caller and by the background runners that look it up: it stands in a
-- store, at an address that all of them hold. A `Mutex` section is one step.
pub mod Waiters
pub mod Machine
pub mod Invariant
pub mod Preserve
pub mod Polling
pub mod Safety
pub mod Cells
pub mod Wakeup
pub mod Expiry
use rpc_it_rs.Base.{
  ℕ, Bool, true, false, Option, none, some, List, [], ◌∷◌, ◌++◌, Result, ok, err, Poll, pending,
  ready, Outcome, returns, panics, ◌>>=◌, map_err, length, get_elem?, set, if◌then◌else◌,
}
use rpc_it_rs.Base.Assoc.{lookup, remove}
use rpc_it_rs.Defs.{Bytes, RangeType}
use rpc_it_rs.Codec.{ResponseError}
use rpc_it_rs.Waker.{AtomicWaker}
use rpc_it_rs.Rpc.Types.{
  ResponseState, Response, ErrorResponse, ResponseReceiveError, closed, empty, retrieved,
}

pub record Waiter (W : Type 0) : Type 0 where
  pub waker : W
  pub response : ResponseState

-- `RequestContext` with the waiters that it and others share. The wait list maps a request id to
-- the address of its waiter; `woken` has the tasks that were woken, the last one first.
pub record RequestContext (W : Type 0) : Type 0 where
  pub wait_list : List (ℕ × ℕ)
  pub expired : Bool
  pub waiters : List (Waiter W)
  pub woken : List ℕ

-- What a live `ReceiveResponse` holds: the request's id and the address of its waiter.
pub record Receive : Type 0 where
  pub request_id : ℕ
  pub wait_obj : ℕ

unfoldable pub new_context : {W : Type 0} → RequestContext W
new_context = record { wait_list = []; expired = false; waiters = []; woken = [] }

-- `Waker::wake` on what `AtomicWaker::take` returned.
abbrev pub wake_task : Option ℕ → List ℕ → List ℕ
wake_task none woken = woken
wake_task (some task) woken = task ∷ woken

-- `data = ResponseState::Ready(..)` under its test: a failed write and a retrieved response stay.
unfoldable pub overwrite : ResponseState → ResponseState → ResponseState
overwrite ResponseState.none new = new
overwrite (ResponseState.ready raw errc payload) new = new
overwrite ResponseState.write_failed new = ResponseState.write_failed
overwrite ResponseState.pending_remove new = ResponseState.pending_remove

unfoldable pub make_response :
    {C : Type 0}
    → C
    → Bytes
    → RangeType
    → Option ResponseError
    → Result (Response C) (ErrorResponse C)
make_response codec raw payload (some errc) =
    err (record { errc = errc; codec = codec; raw = raw; payload = payload })
make_response codec raw payload none = ok (record { codec = codec; raw = raw; payload = payload })

module _ {W : Type 0} (aw : AtomicWaker W) where
  -- `RequestContext::try_allocate_new_request`.
  unfoldable pub try_allocate_new_request : RequestContext W → ℕ → RequestContext W × Option Receive
  try_allocate_new_request c id = if c.expired then (c, none) else elim (lookup id c.wait_list) [
    | some _ ↦ (c, none)
    | none ↦ (
      record c {
        wait_list = (id, length c.waiters) ∷ c.wait_list;
        waiters = c.waiters ++ record { waker = aw.new; response = ResponseState.none } ∷ [];
      },
      some (record { request_id = id; wait_obj = length c.waiters }),
    )
  ]

  -- `RequestContext::free_request_id`, with its assertion.
  unfoldable pub free_request_id : RequestContext W → ℕ → Outcome (RequestContext W)
  free_request_id c id = elim (lookup id c.wait_list) [
    | none ↦ panics
    | some _ ↦ returns (record c { wait_list = remove id c.wait_list })
  ]

  -- `wait_obj.waker.wake()`.
  unfoldable pub wake : RequestContext W → ℕ → RequestContext W
  wake c at = elim (get_elem? c.waiters at) [
    | none ↦ c
    | some w ↦ record c {
      waiters = set c.waiters at (record w { waker = (aw.take w.waker).0 });
      woken = wake_task (aw.take w.waker).1 c.woken;
    }
  ]

  -- `*wait_obj.response.lock() = f(..)`.
  unfoldable pub update_response :
      RequestContext W → ℕ → (ResponseState → ResponseState) → RequestContext W
  update_response c at f = elim (get_elem? c.waiters at) [
    | none ↦ c
    | some w ↦ record c { waiters = set c.waiters at (record w { response = f w.response }) }
  ]

  -- The second half of `set_response`: the wait list is no longer locked.
  unfoldable pub deliver : RequestContext W → ℕ → ResponseState → RequestContext W
  deliver c at new = wake (update_response c at (λ old. overwrite old new)) at

  -- `RequestContext::set_response`.
  unfoldable pub set_response :
      RequestContext W
      → ℕ
      → Bytes
      → RangeType
      → Option ResponseError
      → RequestContext W × Result (Unit {0}) Bytes
  unfolding deliver
  set_response c id raw_data payload errc = elim (lookup id c.wait_list) [
    | none ↦ (c, err raw_data)
    | some at ↦
        if c.expired
        then (c, err raw_data)
        else (deliver c at (ResponseState.ready raw_data errc payload), ok tt)
  ]

  -- The second half of `set_request_write_failed`.
  unfoldable pub fail : RequestContext W → ℕ → RequestContext W
  fail c at = wake (update_response c at (λ _. ResponseState.write_failed)) at

  -- `RequestContext::set_request_write_failed`.
  unfoldable pub set_request_write_failed : RequestContext W → ℕ → RequestContext W
  unfolding fail
  set_request_write_failed c id = elim (lookup id c.wait_list) [ none ↦ c | some at ↦ fail c at ]

  unfoldable pub wake_all : List (ℕ × ℕ) → RequestContext W → RequestContext W
  wake_all [] c = c
  wake_all ((id, at) ∷ m) c = wake_all m (wake c at)

  -- `RequestContext::mark_expired`.
  unfoldable pub mark_expired : RequestContext W → RequestContext W
  mark_expired c = if c.expired then c else wake_all c.wait_list (record c { expired = true })

  -- `wait_obj.waker.register(cx.waker())`.
  unfoldable pub register : RequestContext W → ℕ → ℕ → RequestContext W
  register c at task = elim (get_elem? c.waiters at) [
    | none ↦ c
    | some w ↦ record c {
      waiters = set c.waiters at (record w { waker = aw.register w.waker task });
    }
  ]

  -- `obj.wait_obj.waker.take()`: the waker is dropped.
  unfoldable pub drop_waker : RequestContext W → ℕ → RequestContext W
  drop_waker c at = elim (get_elem? c.waiters at) [
    | none ↦ c
    | some w ↦ record c { waiters = set c.waiters at (record w { waker = (aw.take w.waker).0 }) }
  ]

  -- `ReceiveResponse::try_unregister`, after which the state is `None`.
  unfoldable pub try_unregister : RequestContext W → Option Receive → Outcome (RequestContext W)
  unfolding drop_waker free_request_id
  try_unregister c none = returns c
  try_unregister c (some r) = free_request_id (drop_waker c r.wait_obj) r.request_id

abbrev pub Ready : Type 0
Ready = Bytes × Option ResponseError × RangeType

-- The match of `Receive::poll` on the response: the response after it, and the result.
unfoldable pub take_response : ResponseState → Outcome (ResponseState × Poll (Option Ready))
take_response ResponseState.none = returns (ResponseState.none, pending)
take_response (ResponseState.ready raw errc payload) =
    returns (ResponseState.pending_remove, ready (some (raw, errc, payload)))
take_response ResponseState.write_failed = returns (ResponseState.write_failed, ready none)
take_response ResponseState.pending_remove = panics

module _ {W : Type 0} (aw : AtomicWaker W) where
  -- `Receive::poll`. The address of a live `Receive` is always good.
  unfoldable pub receive_poll :
      RequestContext W → Receive → Outcome (RequestContext W × Poll (Option Ready))
  unfolding take_response update_response
  receive_poll c r = do
    w ← elim (get_elem? c.waiters r.wait_obj) [ none ↦ panics | some w ↦ returns w ]
    (new, result) ← take_response w.response
    returns (update_response aw c r.wait_obj (λ _. new), result)

module _ {W : Type 0} (aw : AtomicWaker W) {C : Type 0} (codec : C) where
  abbrev pub Received : Type 0
  Received = Result (Response C) (ResponseReceiveError C)

  -- The context, the state of the `ReceiveResponse`, and what the call returns.
  abbrev pub Polled : Type 0
  Polled = RequestContext W × Option Receive × Poll Received

  -- The match of `ReceiveResponse::poll` on the result of `obj.poll()`.
  unfoldable pub poll_result : RequestContext W → Receive → Poll (Option Ready) → Outcome Polled
  unfolding try_unregister make_response
  poll_result c r pending =
      if c.expired
      then (do c' ← try_unregister aw c (some r); returns (c', none, ready (err closed)))
      else returns (c, some r, pending)
  poll_result c r (ready (some (raw, errc, payload))) = do
    c' ← try_unregister aw c (some r)
    returns (
      c',
      none,
      ready (map_err ResponseReceiveError.response (make_response codec raw payload errc)),
    )
  poll_result c r (ready none) = do
    c' ← try_unregister aw c (some r)
    returns (c', none, ready (err closed))

  -- `ReceiveResponse::poll`, called from `task`.
  unfoldable pub poll : RequestContext W → Option Receive → ℕ → Outcome Polled
  unfolding poll_result receive_poll register
  poll c none task = returns (c, none, ready (err empty))
  poll c (some r) task = do
    (c', result) ← receive_poll aw (register aw c r.wait_obj task) r
    poll_result c' r result

  -- The match of `ReceiveResponse::try_recv` on the result of `obj.poll()`.
  unfoldable pub try_recv_result :
      RequestContext W
      → Receive
      → Poll (Option Ready)
      → Outcome (RequestContext W × Option Receive × Received)
  unfolding try_unregister make_response
  try_recv_result c r pending = returns (c, some r, (if c.expired then err closed else err empty))
  try_recv_result c r (ready (some (raw, errc, payload))) = do
    c' ← try_unregister aw c (some r)
    returns (c', none, map_err ResponseReceiveError.response (make_response codec raw payload errc))
  try_recv_result c r (ready none) = do
    c' ← try_unregister aw c (some r)
    returns (c', none, err closed)

  -- `ReceiveResponse::try_recv`.
  unfoldable pub try_recv :
      RequestContext W → Option Receive → Outcome (RequestContext W × Option Receive × Received)
  unfolding try_recv_result receive_poll
  try_recv c none = returns (c, none, err retrieved)
  try_recv c (some r) = do (c', result) ← receive_poll aw c r; try_recv_result c' r result

-- `FusedFuture::is_terminated`.
unfoldable pub is_terminated : Option Receive → Bool
is_terminated none = true
is_terminated (some r) = false
