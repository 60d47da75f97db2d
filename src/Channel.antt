-- ===== src/Channel.antt =====
-- The sending half of `async_channel` (`mpsc` in the code), which is not part of the repository, as
-- an interface: a channel of type `Q`, and what the documentation promises of it.
use rpc_it_rs.Base.{
  ◌≡◌, refl, ◌⊎◌, Bool, true, List, [], ◌∷◌, ◌++◌, Result, ok, err, if◌then◌else◌, arith,
}

pub data TrySendError (D : Type 0) : Type 0 where
  full closed : D → TrySendError D

pub record Channel (Q D : Type 0) : Type 0 where
  pub try_send : Q → D → Q × Result (Unit {0}) (TrySendError D)
  -- The awaited `send`: the channel when it ends, and its result; the error is `SendError`.
  pub send : Q → D → Q × Result (Unit {0}) D
  pub close : Q → Q
  pub is_closed : Q → Bool
  -- The messages that were sent and not received, the oldest first.
  pub queued : Q → List D

pub record IsChannel {Q D : Type 0} (ch : Channel Q D) : Type 0 where
  -- A closed channel takes nothing, and says so.
  pub try_send_closed :
      (q : Q) (d : D) → ch.is_closed q ≡ true → ch.try_send q d ≡ (q, err (closed d))
  -- An accepted message is queued behind the others; the channel stays open.
  pub try_send_ok :
      (q : Q) (d : D)
      → (ch.try_send q d).1 ≡ ok tt
      → (ch.queued (ch.try_send q d).0 ≡ ch.queued q ++ d ∷ [])
        × (ch.is_closed (ch.try_send q d).0 ≡ ch.is_closed q)
  -- A message that is not accepted comes back with the error.
  pub try_send_err :
      (q : Q) (d : D) (e : TrySendError D)
      → (ch.try_send q d).1 ≡ err e
      → (e ≡ full d) ⊎ (e ≡ closed d)
  pub try_send_kept :
      (q : Q) (d : D) (e : TrySendError D)
      → (ch.try_send q d).1 ≡ err e
      → ch.queued (ch.try_send q d).0 ≡ ch.queued q
  -- The same of `send`.
  pub send_ok :
      (q : Q) (d : D) → (ch.send q d).1 ≡ ok tt → ch.queued (ch.send q d).0 ≡ ch.queued q ++ d ∷ []
  pub send_kept :
      (q : Q) (d e : D) → (ch.send q d).1 ≡ err e → ch.queued (ch.send q d).0 ≡ ch.queued q
  -- `close` keeps what is queued.
  pub close_closes :
      (q : Q) → (ch.is_closed (ch.close q) ≡ true) × (ch.queued (ch.close q) ≡ ch.queued q)

-- An unbounded channel.
pub record Unbounded (D : Type 0) : Type 0 where
  pub messages : List D
  pub is_closed : Bool

abbrev pub unbounded : {D : Type 0} → Channel (Unbounded D) D
unbounded = record {
  try_send = λ q d.
      if q.is_closed
      then (q, err (closed d))
      else (record q { messages = q.messages ++ d ∷ [] }, ok tt);
  send = λ q d.
      if q.is_closed then (q, err d) else (record q { messages = q.messages ++ d ∷ [] }, ok tt);
  close = λ q. record q { is_closed = true };
  is_closed = λ q. q.is_closed;
  queued = λ q. q.messages;
}

pub unbounded-IsChannel : {D : Type 0} → IsChannel (unbounded {D = D})
unbounded-IsChannel = record {
  try_send_closed = λ q d e. ground arith;
  try_send_ok = λ q d e. ground arith;
  try_send_err = λ q d e h. ground arith;
  try_send_kept = λ q d e h. ground arith;
  send_ok = λ q d h. ground arith;
  send_kept = λ q d e h. ground arith;
  close_closes = λ q. (refl, refl);
}
