-- ===== src/Io/InMemory.antt =====
-- src/io.rs, `in_memory`: a bounded pipe between a sink and a stream, shared by both. The array
-- queue of crossbeam is a list with its capacity. A `usize` has 64 bits.
pub mod Order
pub mod Wakeups
use rpc_it_rs.Base.{
  ℕ, ◌+◌, ◌-◌, ◌%◌, ◌^◌, Bool, true, false, Option, none, some, List, [], ◌∷◌, ◌++◌, Result, ok,
  err, Poll, pending, ready, Outcome, returns, panics, ◌==◌, ltb, length, if◌then◌else◌,
}
use rpc_it_rs.Defs.{Bytes}
use rpc_it_rs.Waker.{AtomicWaker}

-- `InMemoryInner`; `woken` has the tasks that were woken, the last one first.
pub record InMemory (W : Type 0) : Type 0 where
  pub queue : List Bytes
  pub capacity : ℕ
  pub semaphore : ℕ
  pub sig_msg_sent : W
  pub sig_ready_to_recv : W
  pub closed : Bool
  pub woken : List ℕ

-- `ErrorKind::BrokenPipe`.
pub data BrokenPipe : Type 0 where
  broken_pipe : BrokenPipe

-- `fetch_sub(1)` and `fetch_add(1)`.
abbrev pub minus_one : ℕ → ℕ
minus_one n = (n + (2 ^ 64 - 1)) % 2 ^ 64

abbrev pub plus_one : ℕ → ℕ
plus_one n = (n + 1) % 2 ^ 64

-- `if let Some(w) = signal.take() { w.wake() }`.
abbrev pub notify : Option ℕ → List ℕ → List ℕ
notify none woken = woken
notify (some task) woken = task ∷ woken

module _ {W : Type 0} (aw : AtomicWaker W) where
  -- `in_memory`, which wants a capacity that is not zero.
  abbrev pub new_pipe : ℕ → InMemory W
  new_pipe capacity = record {
    queue = [];
    capacity = capacity;
    semaphore = capacity;
    sig_msg_sent = aw.new;
    sig_ready_to_recv = aw.new;
    closed = false;
    woken = [];
  }

  unfoldable pub in_memory : ℕ → Outcome (InMemory W)
  in_memory capacity = if capacity == 0 then panics else returns (new_pipe capacity)

  -- The macro `check_ready!`; `again` is what follows it.
  unfoldable pub check_ready :
      InMemory W
      → InMemory W × Poll (Result (Unit {0}) BrokenPipe)
      → InMemory W × Poll (Result (Unit {0}) BrokenPipe)
  check_ready p again =
      if p.closed
      then (p, ready (err broken_pipe))
      else if ltb 0 p.semaphore
      then (p, ready (ok tt))
      else again

  -- `poll_ready` of the sink.
  unfoldable pub poll_ready : InMemory W → ℕ → InMemory W × Poll (Result (Unit {0}) BrokenPipe)
  unfolding check_ready
  poll_ready p task =
      let p' = record p { sig_ready_to_recv = aw.register p.sig_ready_to_recv task } in
      check_ready p (check_ready p' (p', pending))

  -- `start_send`; `none` is the loop that spins while the queue is full.
  unfoldable pub start_send : InMemory W → Bytes → Option (InMemory W)
  start_send p item =
      if ltb (length p.queue) p.capacity
      then some (record p {
        queue = p.queue ++ item ∷ [];
        semaphore = minus_one p.semaphore;
        sig_msg_sent = (aw.take p.sig_msg_sent).0;
        woken = notify (aw.take p.sig_msg_sent).1 p.woken;
      })
      else none

  -- `InMemoryTx::drop_impl`, also `poll_close` of the sink.
  unfoldable pub drop_tx : InMemory W → InMemory W
  drop_tx p = record p {
    closed = true;
    sig_msg_sent = (aw.take p.sig_msg_sent).0;
    woken = notify (aw.take p.sig_msg_sent).1 p.woken;
  }

  -- The macro `try_recv!`; `again` is what follows it.
  unfoldable pub try_recv_frame :
      InMemory W → InMemory W × Poll (Option Bytes) → InMemory W × Poll (Option Bytes)
  try_recv_frame p again = elim p.queue [
    | msg ∷ rest ↦ (
      record p {
        queue = rest;
        semaphore = plus_one p.semaphore;
        sig_ready_to_recv = (aw.take p.sig_ready_to_recv).0;
        woken = notify (aw.take p.sig_ready_to_recv).1 p.woken;
      },
      ready (some msg),
    )
    | [] ↦ if p.closed then (p, ready none) else again
  ]

  -- `poll_read_frame`.
  unfoldable pub poll_read_frame : InMemory W → ℕ → InMemory W × Poll (Option Bytes)
  unfolding try_recv_frame
  poll_read_frame p task =
      let p' = record p { sig_msg_sent = aw.register p.sig_msg_sent task } in
      try_recv_frame p (try_recv_frame p' (p', pending))

  -- `InMemoryRx::drop_impl`.
  unfoldable pub drop_rx : InMemory W → InMemory W
  drop_rx p = record p {
    closed = true;
    sig_ready_to_recv = (aw.take p.sig_ready_to_recv).0;
    woken = notify (aw.take p.sig_ready_to_recv).1 p.woken;
  }
