-- ===== src/Io/InMemory/Wakeups.antt =====
-- A reader that was told to wait is woken.
use rpc_it_rs.Base.{
  ℕ, ◌≡◌, refl, ap, subst, ◌∙◌, ◌⊎◌, inl, inr, true, false, Option, none, some, List, [], ◌∷◌, ◌++◌,
  Poll, pending, ready, ltb, if-split,
}
use rpc_it_rs.Defs.{Bytes}
use rpc_it_rs.Waker.{AtomicWaker, IsAtomicWaker}
use rpc_it_rs.Io.InMemory.{
  InMemory, notify, minus_one, start_send, drop_tx, try_recv_frame, poll_read_frame,
}

module _ {W : Type 0} (aw : AtomicWaker W) where
  -- The reader waits: nothing is queued, the pipe is open, and the task is registered.
  pub record Reads (p : InMemory W) (task : ℕ) : Type 0 where
    pub before : W
    pub empty : p.queue ≡ []
    pub opened : p.closed ≡ false
    pub registered : p.sig_msg_sent ≡ aw.register before task

  abbrev Pends : InMemory W → ℕ → InMemory W × Poll (Option Bytes) → Type 0
  Pends p task (p', pending) = Reads p' task
  Pends p task (p', ready r) = Unit {0}

  try_recv_frame-Pends :
      (p p' : InMemory W) (task : ℕ) (again : InMemory W × Poll (Option Bytes))
      → (p'.queue ≡ [] → p'.closed ≡ false → Pends p task again)
      → Pends p task (try_recv_frame aw p' again)
  unfolding try_recv_frame
  try_recv_frame-Pends p p' task again h = elim (queue_cases p'.queue) [
    | inl e ↦ rw (e, try_recv_frame) (if-split (Pends p task) p'.closed (λ c. tt) (λ c. h e c))
    | inr (msg, rest, e) ↦ rw (e, try_recv_frame) tt
  ]
    where
      queue_cases :
          (q : List Bytes) → (q ≡ []) ⊎ ((msg : Bytes) × (rest : List Bytes) × (q ≡ msg ∷ rest))
      queue_cases [] = inl refl
      queue_cases (msg ∷ rest) = inr (msg, rest, refl)

  poll_read_frame-Pends : (p : InMemory W) (task : ℕ) → Pends p task (poll_read_frame aw p task)
  unfolding poll_read_frame
  poll_read_frame-Pends p task =
      let p' : InMemory W = record p { sig_msg_sent = aw.register p.sig_msg_sent task } in
      try_recv_frame-Pends p p task (try_recv_frame aw p' (p', pending)) (λ e c.
        try_recv_frame-Pends p p' task (p', pending)
          (λ e' c'. record { before = p.sig_msg_sent; empty = e; opened = c; registered = refl }))

  -- Where a poll of the reader returns `Pending`, the next frame that is taken wakes its task, and
  -- so does the drop of the sender; the next poll then returns that frame, or the end.
  pub pending_wakes :
      (p p' : InMemory W) (task later : ℕ) (item : Bytes)
      → IsAtomicWaker aw
      → poll_read_frame aw p task ≡ (p', pending)
      → ltb 0 p'.capacity ≡ true
      → ((p'' : InMemory W) × (start_send aw p' item ≡ some p'')
          × (p''.woken ≡ task ∷ p'.woken)
          × ((poll_read_frame aw p'' later).1 ≡ ready (some item)))
        × ((drop_tx aw p').woken ≡ task ∷ p'.woken)
        × ((poll_read_frame aw (drop_tx aw p') later).1 ≡ ready none)
  unfolding start_send drop_tx poll_read_frame try_recv_frame
  pending_wakes p p' task later item laws e room =
      let w : Reads p' task = subst (Pends p task) e (poll_read_frame-Pends p task) in
      let taken : (aw.take p'.sig_msg_sent).1 ≡ some task =
        ap (λ k. (aw.take k).1) w.registered ∙ laws.take-register w.before task in
      let empty = w.empty in
      (
        (
          record p' {
            queue = p'.queue ++ item ∷ [];
            semaphore = minus_one p'.semaphore;
            sig_msg_sent = (aw.take p'.sig_msg_sent).0;
            woken = notify (aw.take p'.sig_msg_sent).1 p'.woken;
          },
          simp (empty, room),
          rw taken,
          simp empty,
        ),
        rw taken,
        simp empty,
      )
