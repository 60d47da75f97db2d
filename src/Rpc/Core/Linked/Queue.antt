-- ===== src/Rpc/Core/Linked/Queue.antt =====
-- What the calls of a `NotifySender` leave in the channel: no request.
use rpc_it_rs.Base.{
  Ensures, Ensures-bind, Ensures-any, ℕ, ◌≡◌, ◌⊎◌, inl, inr, Bool-cases, Result-cases, ◌==◌, length,
  refl, sym, subst, Option, none, some, List, [], ◌∷◌, ◌++◌, All, Result, ok, err, Outcome, returns,
  ◌>>=◌, if◌then◌else◌, if-both,
}
use rpc_it_rs.Defs.{Bytes}
use rpc_it_rs.Codec.{Codec, not_reusable}
use rpc_it_rs.Channel.{Channel, IsChannel, TrySendError}
use rpc_it_rs.Rpc.Types.{
  WriterDirective, close_immediately, close_after_flush, flush, write_msg, write_msg_burst,
  write_req_msg, SendMsgError, TrySendMsgError,
}
use rpc_it_rs.Rpc.Sender
use rpc_it_rs.Rpc.Burst.{
  PacketWriteBurst, empty, err_hash_mismatch, mono, burst_into_directive, send_burst, try_burst,
}
use rpc_it_rs.Rpc.Core.HandleSteps.{NotifyCall, notify_call}

abbrev pub NotRequest : WriterDirective → Type 0
NotRequest close_immediately = Unit {0}
NotRequest close_after_flush = Unit {0}
NotRequest flush = Unit {0}
NotRequest (write_msg payload) = Unit {0}
NotRequest (write_msg_burst chunks) = Unit {0}
NotRequest (write_req_msg payload id) = ⊥

pub All-append :
    (ds es : List WriterDirective)
    → All NotRequest ds
    → All NotRequest es
    → All NotRequest (ds ++ es)
All-append [] es a b = b
All-append (d ∷ ds) es a b = (a.0, All-append ds es a.1 b)

module _ {Q : Type 0} (ch : Channel Q WriterDirective) where
  -- No request is queued.
  abbrev pub Quiet : Q → Type 0
  Quiet q = All NotRequest (ch.queued q)

  abbrev pub Left : {X : Type 0} → Q × X → Type 0
  Left (q, x) = Quiet q

  abbrev pub QuietTx : Option Q → Type 0
  QuietTx none = Unit {0}
  QuietTx (some q) = Quiet q

  module _ (laws : IsChannel ch) where
    pub try_send-Quiet :
        (q : Q) (d : WriterDirective) → NotRequest d → Quiet q → Quiet (ch.try_send q d).0
    try_send-Quiet q d n h = go (ch.try_send q d).1 refl
      where
        go :
            (r : Result (Unit {0}) (TrySendError WriterDirective))
            → (ch.try_send q d).1 ≡ r
            → Quiet (ch.try_send q d).0
        go (ok _) e =
            subst (All NotRequest) (sym (laws.try_send_ok q d e).0)
              (All-append (ch.queued q) (d ∷ []) h (n, tt))
        go (err x) e = subst (All NotRequest) (sym (laws.try_send_kept q d x e)) h

    pub send-Quiet : (q : Q) (d : WriterDirective) → NotRequest d → Quiet q → Quiet (ch.send q d).0
    send-Quiet q d n h = go (ch.send q d).1 refl
      where
        go : (r : Result (Unit {0}) WriterDirective) → (ch.send q d).1 ≡ r → Quiet (ch.send q d).0
        go (ok _) e =
            subst (All NotRequest) (sym (laws.send_ok q d e))
              (All-append (ch.queued q) (d ∷ []) h (n, tt))
        go (err x) e = subst (All NotRequest) (sym (laws.send_kept q d x e)) h

    pub close-Quiet : (q : Q) → Quiet q → Quiet (ch.close q)
    close-Quiet q h = subst (All NotRequest) (sym (laws.close_closes q).1) h

    -- A directive that is sent, and the channel closed behind it or not.
    sent :
        {A B E : Type 0} (p : Q × Result A B) (error : B → E)
        → Quiet p.0
        → Quiet
            (elim p.1 as (λ _. Q × Result (Unit {0}) E) [
              | ok a ↦ (p.0, ok tt)
              | err b ↦ (p.0, err (error b))
            ]).0
    sent (q, ok a) error h = h
    sent (q, err b) error h = h

    sent_and_closed :
        {A B E : Type 0} (p : Q × Result A B) (error : B → E)
        → Quiet p.0
        → Quiet
            (elim p.1 as (λ _. Q × Result (Unit {0}) E) [
              | ok a ↦ (ch.close p.0, ok tt)
              | err b ↦ (p.0, err (error b))
            ]).0
    sent_and_closed (q, ok a) error h = close-Quiet q h
    sent_and_closed (q, err b) error h = h

    send_frame-Quiet :
        (q : Q) (d : WriterDirective) → NotRequest d → Quiet q → Quiet (Sender.send_frame ch q d).0
    unfolding Sender.send_frame
    send_frame-Quiet q d n h =
        sent (ch.send q d) (λ _. SendMsgError.channel_closed) (send-Quiet q d n h)

    try_send_frame-Quiet :
        (q : Q) (d : WriterDirective)
        → NotRequest d
        → Quiet q
        → Ensures Left (Sender.try_send_frame ch q d)
    unfolding Sender.try_send_frame
    try_send_frame-Quiet q d n h = go (ch.try_send q d) (try_send-Quiet q d n h)
      where
        go :
            (p : Q × Result (Unit {0}) (TrySendError WriterDirective))
            → Quiet p.0
            → Ensures Left (elim p.1 as (λ _. Outcome (Q × Result (Unit {0}) TrySendMsgError)) [
              | ok _ ↦ returns (p.0, ok tt)
              | err e ↦ Sender.convert_deferred_write_err e >>= λ x. returns (p.0, err x)
            ])
        go (q', ok _) k = k
        go (q', err e) k =
            Ensures-bind (λ _. Unit {0}) _ (Sender.convert_deferred_write_err e) _
              (Ensures-any (Sender.convert_deferred_write_err e)) (λ a _. k)

    -- A burst is no request.
    burst_directive-NotRequest :
        (hash : ℕ) (b : PacketWriteBurst)
        → (burst_into_directive hash b ≡ err not_reusable)
          ⊎ (burst_into_directive hash b ≡ ok none)
          ⊎ ((n : ℕ) × (d : WriterDirective) × (burst_into_directive hash b ≡ ok (some (n, d)))
              × NotRequest d)
    unfolding burst_into_directive
    burst_directive-NotRequest hash empty = inr (inl refl)
    burst_directive-NotRequest hash err_hash_mismatch = inl refl
    burst_directive-NotRequest hash (mono pkt) = elim (Bool-cases (pkt.hash == hash)) [
      | inl e ↦ inr (inr (1, write_msg pkt.data_bytes, rw e refl, tt))
      | inr e ↦ inl (rw e refl)
    ]
    burst_directive-NotRequest hash (PacketWriteBurst.burst h chunks) =
        elim (Bool-cases (h == hash)) [
          | inl e ↦ inr (inr (length chunks, write_msg_burst chunks, rw e refl, tt))
          | inr e ↦ inl (rw e refl)
        ]

    send_burst-Quiet :
        (q : Q) (hash : ℕ) (b : PacketWriteBurst) → Quiet q → Quiet (send_burst ch q hash b).0
    unfolding send_burst
    send_burst-Quiet q hash b h = elim (burst_directive-NotRequest hash b) [
      | inl e ↦ rw (e, send_burst) h
      | inr (inl e) ↦ rw (e, send_burst) h
      | inr (inr (n, d, e, k)) ↦ rw (e, send_burst) (send_frame-Quiet q d k h)
    ]

    try_burst-Quiet :
        (q : Q) (hash : ℕ) (b : PacketWriteBurst) → Quiet q → Ensures Left (try_burst ch q hash b)
    unfolding try_burst
    try_burst-Quiet q hash b h = elim (burst_directive-NotRequest hash b) [
      | inl e ↦ rw (e, try_burst) h
      | inr (inl e) ↦ rw (e, try_burst) h
      | inr (inr (n, d, e, k)) ↦
          rw (e, try_burst)
            (Ensures-bind Left Left (Sender.try_send_frame ch q d) _ (try_send_frame-Quiet q d k h)
              (λ r v. v))
    ]

    -- A call of a `NotifySender` leaves no request in the channel.
    pub notify_call-Quiet :
        {S : Type 0} (codec : Codec S) (call : NotifyCall S) (q : Q)
        → Quiet q
        → Ensures Quiet (notify_call ch codec call q)
    unfolding notify_call Sender.send_notify Sender.try_send_notify Sender.flush_writer
        Sender.try_flush_writer Sender.shutdown_writer Sender.try_shutdown_writer
    notify_call-Quiet codec (NotifyCall.send_notify buf method params) q h =
        elim (Result-cases (codec.encode_notify method params []).1) [
          | inl (a, e) ↦
              rw (e, Sender.send_notify)
                (send_frame-Quiet q (write_msg (codec.encode_notify method params []).0) tt h)
          | inr (x, e) ↦ rw (e, Sender.send_notify) h
        ]
    notify_call-Quiet codec (NotifyCall.try_send_notify buf method params) q h =
        elim (Result-cases (codec.encode_notify method params []).1) [
          | inl (a, e) ↦
              rw (e, Sender.try_send_notify)
                (Ensures-bind (λ (r : Q × Bytes × Result (Unit {0}) TrySendMsgError). Quiet r.0)
                  Quiet _ _
                  (Ensures-bind Left
                    (λ (r : Q × Bytes × Result (Unit {0}) TrySendMsgError). Quiet r.0)
                    (Sender.try_send_frame ch q
                      (write_msg (codec.encode_notify method params []).0))
                    _ (try_send_frame-Quiet q _ tt h) (λ r v. v))
                  (λ r v. v))
          | inr (x, e) ↦ rw (e, Sender.try_send_notify) h
        ]
    notify_call-Quiet codec (NotifyCall.burst b) q h =
        send_burst-Quiet q codec.codec_reusability_id b h
    notify_call-Quiet codec (NotifyCall.try_burst b) q h =
        Ensures-bind Left Quiet (try_burst ch q codec.codec_reusability_id b) _
          (try_burst-Quiet q codec.codec_reusability_id b h) (λ r v. v)
    notify_call-Quiet codec (NotifyCall.shutdown_writer b) q h =
        let d = if b then close_immediately else close_after_flush in
        sent_and_closed (ch.send q d) (λ _. TrySendMsgError.channel_closed)
          (send-Quiet q d (if-both NotRequest b tt tt) h)
    notify_call-Quiet codec (NotifyCall.try_shutdown_writer b) q h =
        let d = if b then close_immediately else close_after_flush in
        sent_and_closed (ch.try_send q d) Sender.convert_deferred_action_err
          (try_send-Quiet q d (if-both NotRequest b tt tt) h)
    notify_call-Quiet codec NotifyCall.flush_writer q h =
        sent (ch.send q flush) (λ _. TrySendMsgError.channel_closed) (send-Quiet q flush tt h)
    notify_call-Quiet codec NotifyCall.try_flush_writer q h =
        sent (ch.try_send q flush) Sender.convert_deferred_action_err (try_send-Quiet q flush tt h)
