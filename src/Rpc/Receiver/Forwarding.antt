-- ===== src/Rpc/Receiver/Forwarding.antt =====
-- What the task of `split_recv_task` forwards.
use rpc_it_rs.Base.{
  ◌≡◌, Bool, false, Option, none, some, List, [], ◌∷◌, ◌++◌, Result, ok, err, Outcome, returns,
  panics, ◌>>=◌,
}
use rpc_it_rs.Defs.{Bytes}
use rpc_it_rs.Codec.{Codec}
use rpc_it_rs.Waker.{AtomicWaker}
use rpc_it_rs.Channel.{Channel}
use rpc_it_rs.Rpc.ReqRep.{RequestContext}
use rpc_it_rs.Rpc.Inbound.{Inbound}
use rpc_it_rs.Rpc.Receiver.{Failure, Handled, Read, eof, io_error, is_eof, handle_inbound_once}

module _ {W S : Type 0} (IoError : Type 0) (aw : AtomicWaker W) (codec : Codec S)
    (is_utf8 : Bytes → Bool) where
  -- What is forwarded for a frame: nothing for a response that was delivered.
  abbrev pub forwarded :
      Result (Option Inbound) (Failure IoError aw codec is_utf8)
      → List (Result Inbound (Failure IoError aw codec is_utf8))
  forwarded (ok none) = []
  forwarded (ok (some ib)) = ok ib ∷ []
  forwarded (err e) = err e ∷ []

  -- The context, and what is forwarded.
  abbrev pub Forwarded : Type 0
  Forwarded = Option (RequestContext W) × List (Result Inbound (Failure IoError aw codec is_utf8))

  abbrev pub before :
      List (Result Inbound (Failure IoError aw codec is_utf8)) → Forwarded → Forwarded
  before ds f = (f.0, ds ++ f.1)

  -- The frames handled one by one: the context, and everything that is forwarded.
  unfoldable pub forward_all :
      Read IoError aw codec is_utf8 → Option (RequestContext W) → Outcome Forwarded
  unfolding handle_inbound_once
  forward_all [] reqs = returns (reqs, err eof ∷ [])
  forward_all (err e ∷ read) reqs = returns (reqs, err (io_error e) ∷ [])
  forward_all (ok ib ∷ read) reqs = handle_inbound_once IoError aw codec is_utf8 reqs ib >>= λ h.
      forward_all read h.0 >>= λ f. returns (before (forwarded h.1) f)

  -- The messages sent one after the other.
  abbrev pub send_all : {T D : Type 0} → Channel T D → List D → T → T
  send_all ch [] tx = tx
  send_all ch (d ∷ ds) tx = send_all ch ds (ch.send tx d).0

  -- No error of a frame is an end of the file.
  abbrev NotEof : Outcome (Handled IoError aw codec is_utf8) → Type 0
  NotEof panics = Unit {0}
  NotEof (returns (reqs, ok r)) = Unit {0}
  NotEof (returns (reqs, err e)) = is_eof e ≡ false

  module _ {T : Type 0} (ch : Channel T (Result Inbound (Failure IoError aw codec is_utf8))) where
    -- The end of the task, with all of it sent.
    abbrev pub sent : T → Forwarded → Option (Option (RequestContext W) × T)
    sent tx f = some (f.0, send_all ch f.1 tx)
