-- ===== src/Io/InMemory/Order.antt =====
-- What goes through the pipe, over any sequence of calls of the two sides.
use mathlib.Core.List.{append_assoc, append-nil}
use rpc_it_rs.Base.{
  ℕ, suc, ◌+◌, ◌^◌, ◌<◌, ◌≡◌, refl, sym, ap, ◌∙◌, ◌⊎◌, inl, inr, true, false, Option, none, some,
  List, [], ◌∷◌, ◌++◌, Result, Poll, pending, ready, returns, ltb, length, length-append, if-both,
  Bool-cases, arith, ◌==◌,
}
use rpc_it_rs.Defs.{Bytes}
use rpc_it_rs.Waker.{AtomicWaker}
use rpc_it_rs.Io.InMemory.{
  InMemory, BrokenPipe, minus_one, plus_one, notify, new_pipe, in_memory, check_ready, poll_ready,
  start_send, drop_tx, try_recv_frame, poll_read_frame, drop_rx,
}

-- A call on one of the two sides.
pub data Use : Type 0 where
  readies reads : ℕ → Use
  sends : Bytes → Use
  drops_tx drops_rx : Use

-- The pipe, with all frames that it took and all that it gave.
pub record Traffic (W : Type 0) : Type 0 where
  pub pipe : InMemory W
  pub sent : List Bytes
  pub received : List Bytes

-- Every frame was received or is queued, in order, and the semaphore counts the free places.
pub record IsFlowing {W : Type 0} (t : Traffic W) : Type 0 where
  pub order : t.received ++ t.pipe.queue ≡ t.sent
  pub slots : t.pipe.semaphore + length t.pipe.queue ≡ t.pipe.capacity
  pub fits : t.pipe.capacity < 2 ^ 64

abbrev pub given : Poll (Option Bytes) → List Bytes
given pending = []
given (ready none) = []
given (ready (some msg)) = msg ∷ []

module _ {W : Type 0} (aw : AtomicWaker W) where
  unfoldable pub traffic_step : Traffic W → Use → Traffic W
  unfolding poll_ready start_send drop_tx poll_read_frame drop_rx
  traffic_step t (readies task) = record t { pipe = (poll_ready aw t.pipe task).0 }
  traffic_step t (sends item) = elim (start_send aw t.pipe item) [
    | none ↦ t
    | some p ↦ record t { pipe = p; sent = t.sent ++ item ∷ [] }
  ]
  traffic_step t (reads task) =
      let (p, r) = poll_read_frame aw t.pipe task in
      record t { pipe = p; received = t.received ++ given r }
  traffic_step t drops_tx = record t { pipe = drop_tx aw t.pipe }
  traffic_step t drops_rx = record t { pipe = drop_rx aw t.pipe }

  unfoldable pub run_traffic : Traffic W → List Use → Traffic W
  unfolding traffic_step
  run_traffic t [] = t
  run_traffic t (u ∷ us) = run_traffic (traffic_step t u) us

  -- The frames and the counts are the same.
  abbrev Keeps : InMemory W → InMemory W → Type 0
  Keeps p p' = (p'.queue ≡ p.queue) × (p'.semaphore ≡ p.semaphore) × (p'.capacity ≡ p.capacity)

  Keeps-IsFlowing :
      (t : Traffic W) (p : InMemory W)
      → IsFlowing t
      → Keeps t.pipe p
      → IsFlowing (record t { pipe = p })
  Keeps-IsFlowing t p v (q, s, c) = record {
    order = rw q v.order;
    slots = rw (q, s, c) v.slots;
    fits = rw c v.fits;
  }

  check_ready-Keeps :
      (p p' : InMemory W) (again : InMemory W × Poll (Result (Unit {0}) BrokenPipe))
      → Keeps p p'
      → Keeps p again.0
      → Keeps p (check_ready aw p' again).0
  unfolding check_ready
  check_ready-Keeps p p' again k h =
      if-both (λ (r : InMemory W × Poll (Result (Unit {0}) BrokenPipe)). Keeps p r.0) p'.closed k
        (if-both (λ (r : InMemory W × Poll (Result (Unit {0}) BrokenPipe)). Keeps p r.0)
          (ltb 0 p'.semaphore) k h)

  poll_ready-Keeps : (p : InMemory W) (task : ℕ) → Keeps p (poll_ready aw p task).0
  unfolding poll_ready
  poll_ready-Keeps p task =
      check_ready-Keeps p p _ (refl, refl, refl)
        (check_ready-Keeps p _ _ (refl, refl, refl) (refl, refl, refl))

  -- A poll of the reader that gives no frame.
  abbrev GivesNone : InMemory W → InMemory W × Poll (Option Bytes) → Type 0
  GivesNone p r = Keeps p r.0 × (given r.1 ≡ [])

  try_recv_frame-GivesNone :
      (p p' : InMemory W) (again : InMemory W × Poll (Option Bytes))
      → p'.queue ≡ []
      → Keeps p p'
      → GivesNone p again
      → GivesNone p (try_recv_frame aw p' again)
  unfolding try_recv_frame
  try_recv_frame-GivesNone p p' again e k h =
      rw (e, try_recv_frame) (if-both (GivesNone p) p'.closed (k, refl) h)

  -- What a poll of the reader does, by the queue.
  read_empty : (p : InMemory W) (task : ℕ) → p.queue ≡ [] → GivesNone p (poll_read_frame aw p task)
  unfolding poll_read_frame
  read_empty p task e =
      try_recv_frame-GivesNone p p _ e (refl, refl, refl)
        (try_recv_frame-GivesNone p _ _ e (refl, refl, refl) ((refl, refl, refl), refl))

  read_first :
      (p : InMemory W) (task : ℕ) (msg : Bytes) (rest : List Bytes)
      → p.queue ≡ msg ∷ rest
      → ((poll_read_frame aw p task).1 ≡ ready (some msg))
        × ((poll_read_frame aw p task).0.queue ≡ rest)
        × ((poll_read_frame aw p task).0.semaphore ≡ plus_one p.semaphore)
        × ((poll_read_frame aw p task).0.capacity ≡ p.capacity)
  unfolding poll_read_frame try_recv_frame
  read_first p task msg rest e = (
    rw (e, poll_read_frame, try_recv_frame),
    rw (e, poll_read_frame, try_recv_frame),
    rw (e, poll_read_frame, try_recv_frame),
    rw (e, poll_read_frame, try_recv_frame),
  )

  reads-IsFlowing :
      (t : Traffic W) (task : ℕ) → IsFlowing t → IsFlowing (traffic_step t (reads task))
  unfolding traffic_step
  reads-IsFlowing t task v = elim (queue_cases t.pipe.queue) [
    | inl e ↦
        let (k, g) = read_empty t.pipe task e in
        let kept = Keeps-IsFlowing t (poll_read_frame aw t.pipe task).0 v k in
        record {
          order = rw (g, append-nil t.received) kept.order;
          slots = kept.slots;
          fits = kept.fits;
        }
    | inr (msg, rest, e) ↦
        let (g, q, s, c) = read_first t.pipe task msg rest e in
        let order = v.order in
        let slots = v.slots in
        let fits = v.fits in
        let counted : t.pipe.semaphore + suc (length rest) ≡ t.pipe.capacity = rw e at slots in
        record {
          order = rw (g, q) (append_assoc t.received (msg ∷ []) rest ∙ rw e at order);
          slots = rw (q, s, c) (omega (arith, counted, fits));
          fits = rw c fits;
        }
  ]
    where
      queue_cases :
          (q : List Bytes) → (q ≡ []) ⊎ ((msg : Bytes) × (rest : List Bytes) × (q ≡ msg ∷ rest))
      queue_cases [] = inl refl
      queue_cases (msg ∷ rest) = inr (msg, rest, refl)

  -- A frame that is taken stands behind the others, and takes one place.
  pub start_send_ok :
      (p : InMemory W) (item : Bytes)
      → ltb (length p.queue) p.capacity ≡ true
      → (p' : InMemory W) × (start_send aw p item ≡ some p')
        × (p'.queue ≡ p.queue ++ item ∷ [])
        × (p'.semaphore ≡ minus_one p.semaphore)
        × (p'.capacity ≡ p.capacity)
  unfolding start_send
  start_send_ok p item e = (
    record p {
      queue = p.queue ++ item ∷ [];
      semaphore = minus_one p.semaphore;
      sig_msg_sent = (aw.take p.sig_msg_sent).0;
      woken = notify (aw.take p.sig_msg_sent).1 p.woken;
    },
    simp e,
    refl,
    refl,
    refl,
  )

  sends-IsFlowing :
      (t : Traffic W) (item : Bytes) → IsFlowing t → IsFlowing (traffic_step t (sends item))
  unfolding traffic_step start_send
  sends-IsFlowing t item v = elim (Bool-cases (ltb (length t.pipe.queue) t.pipe.capacity)) [
    | inl e ↦
        let (p, sent, q, s, c) = start_send_ok t.pipe item e in
        let order = v.order in
        let slots = v.slots in
        let fits = v.fits in
        let more = length-append t.pipe.queue (item ∷ []) in
        rw (sent, traffic_step)
          (record {
            order = rw q (
                sym (append_assoc t.received t.pipe.queue (item ∷ []))
                ∙ ap (λ fs. fs ++ item ∷ []) order);
            slots = rw (q, s, c, more) (ground (arith, slots, fits, e));
            fits = rw c fits;
          })
    | inr e ↦ rw (e, traffic_step, start_send) v
  ]

  step-IsFlowing : (t : Traffic W) (u : Use) → IsFlowing t → IsFlowing (traffic_step t u)
  unfolding traffic_step drop_tx drop_rx
  step-IsFlowing t (readies task) v = Keeps-IsFlowing t _ v (poll_ready-Keeps t.pipe task)
  step-IsFlowing t (reads task) v = reads-IsFlowing t task v
  step-IsFlowing t (sends item) v = sends-IsFlowing t item v
  step-IsFlowing t drops_tx v = Keeps-IsFlowing t _ v (refl, refl, refl)
  step-IsFlowing t drops_rx v = Keeps-IsFlowing t _ v (refl, refl, refl)

  run-IsFlowing : (t : Traffic W) (us : List Use) → IsFlowing t → IsFlowing (run_traffic t us)
  unfolding run_traffic
  run-IsFlowing t [] v = v
  run-IsFlowing t (u ∷ us) v = run-IsFlowing (traffic_step t u) us (step-IsFlowing t u v)

  -- A pipe of a capacity from 1 up to the greatest `usize`, over any sequence of calls of its two
  -- sides: the frames that were received, and behind them those in the queue, are the frames that
  -- were taken, in order and each once; and the semaphore is the number of free places, so that it
  -- never wraps.
  pub in_memory-IsFlowing :
      (capacity : ℕ) (us : List Use)
      → 0 < capacity
      → capacity < 2 ^ 64
      → (p : InMemory W) × (in_memory aw capacity ≡ returns p)
        × IsFlowing (run_traffic (record { pipe = p; sent = []; received = [] }) us)
  unfolding in_memory
  in_memory-IsFlowing capacity us positive fits =
      let nonzero : (capacity == 0) ≡ false = ground (arith, positive) in
      (
        new_pipe aw capacity,
        simp nonzero,
        run-IsFlowing _ us (record { order = refl; slots = omega arith; fits = fits }),
      )
