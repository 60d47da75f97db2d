-- ===== src/Examples/Pipe.antt =====
-- The pipe of src/io.rs.
use rpc_it_rs.Base.{ℕ, ◌≡◌, refl, Option, none, some, [], ◌∷◌, List, pending, ready, returns, arith}
use rpc_it_rs.Waker.{option_waker, option_waker-IsAtomicWaker}
use rpc_it_rs.Io.InMemory.{
  InMemory, new_pipe, in_memory, start_send, drop_tx, try_recv_frame, poll_read_frame,
}
use rpc_it_rs.Io.InMemory.Order.{
  Use, readies, reads, sends, drops_tx, IsFlowing, run_traffic, in_memory-IsFlowing,
}
use rpc_it_rs.Io.InMemory.Wakeups.{pending_wakes}

abbrev uses : List Use
uses = reads 1 ∷ sends (65 ∷ []) ∷ sends (66 ∷ []) ∷ readies 2 ∷ reads 1 ∷ drops_tx ∷ []

in_memory-IsFlowing_example :
    (p : InMemory (Option ℕ)) × (in_memory option_waker 1 ≡ returns p)
    × IsFlowing (run_traffic option_waker (record { pipe = p; sent = []; received = [] }) uses)
in_memory-IsFlowing_example = in_memory-IsFlowing option_waker 1 uses (omega arith) (omega arith)

abbrev waiting : InMemory (Option ℕ)
waiting = record (new_pipe option_waker 1) { sig_msg_sent = some 7 }

waiting_pending : poll_read_frame option_waker (new_pipe option_waker 1) 7 ≡ (waiting, pending)
unfolding poll_read_frame try_recv_frame
waiting_pending = refl

pending_wakes_example :
    ((p'' : InMemory (Option ℕ)) × (start_send option_waker waiting (65 ∷ []) ≡ some p'')
      × (p''.woken ≡ 7 ∷ [])
      × ((poll_read_frame option_waker p'' 8).1 ≡ ready (some (65 ∷ []))))
    × ((drop_tx option_waker waiting).woken ≡ 7 ∷ [])
    × ((poll_read_frame option_waker (drop_tx option_waker waiting) 8).1 ≡ ready none)
pending_wakes_example =
    pending_wakes option_waker (new_pipe option_waker 1) waiting 7 8 (65 ∷ [])
      option_waker-IsAtomicWaker waiting_pending refl
