-- ===== src/Rpc/Burst/Packets.antt =====
-- Which packets make a burst, and what a codec sends of them.
use rpc_it_rs.Base.{
  ℕ, suc, ◌≡◌, ◌≢◌, refl, sym, ap, subst, ◌∙◌, ◌⊎◌, inl, inr, none, some, List, [], ◌∷◌, ◌++◌, map,
  All, length, Result, ok, err, Result-cases, map_err, returns, ◌==◌, ==_iff, Bool-cases,
}
use mathlib.Core.List.{append_assoc, append-nil}
use rpc_it_rs.Defs.{Bytes}
use rpc_it_rs.Codec.{EncodeError, not_reusable}
use rpc_it_rs.Channel.{Channel, IsChannel, full, closed}
use rpc_it_rs.Rpc.Types.{
  WriterDirective, write_msg, write_msg_burst, close_immediately, close_after_flush, flush,
  write_req_msg, SendMsgError, TrySendMsgError,
}
use rpc_it_rs.Rpc.Sender.{convert_deferred_write_err, send_frame, try_send_frame}
use rpc_it_rs.Rpc.Burst.{
  PreparedPacket, err_hash_mismatch, burst, push_packets, from_packets, burst_into_directive,
  PacketWriteBurst, send_burst, try_burst,
}

-- All packets have this hash.
abbrev pub AllHash : ℕ → List PreparedPacket → Type 0
AllHash h = All (λ p. p.hash ≡ h)

abbrev pub payloads : List PreparedPacket → List Bytes
payloads = map (λ p. p.data_bytes)

length-payloads : (ps : List PreparedPacket) → length (payloads ps) ≡ length ps
length-payloads [] = refl
length-payloads (p ∷ ps) = ap suc (length-payloads ps)

-- The loop keeps the packets in order, unless one has another hash.
push_packets_cases :
    (h : ℕ) (vec : List Bytes) (ps : List PreparedPacket)
    → (AllHash h ps × (push_packets h vec ps ≡ burst h (vec ++ payloads ps)))
      ⊎ ((¬ AllHash h ps) × (push_packets h vec ps ≡ err_hash_mismatch))
unfolding push_packets
push_packets_cases h vec [] = inl (tt, ap (burst h) (sym (append-nil vec)))
push_packets_cases h vec (p ∷ ps) = elim (Bool-cases (p.hash == h)) [
  | inl e ↦ elim (push_packets_cases h (vec ++ p.data_bytes ∷ []) ps) [
    | inl (a, q) ↦ inl (
      ((==_iff p.hash h).0 e, a),
      rw e (q ∙ ap (burst h) (append_assoc vec (p.data_bytes ∷ []) (payloads ps))),
    )
    | inr (a, q) ↦ inr (λ b. a b.1, rw e q)
  ]
  | inr e ↦ inr (λ b. cc (e, (==_iff p.hash h).1 b.0), rw e)
]

-- What a codec makes of the packets that are handed to it: the number of packets sent and the
-- frames in order, or the error.
abbrev pub frames_of : WriterDirective → List Bytes
frames_of (write_msg payload) = payload ∷ []
frames_of (write_msg_burst chunks) = chunks
frames_of _ = []

-- What is handed to the writer for a list of packets.
directive_cases :
    (codec_hash : ℕ) (ps : List PreparedPacket)
    → ((ps ≡ []) × (burst_into_directive codec_hash (from_packets ps) ≡ ok none))
      ⊎ ((ps ≢ [])
          × AllHash codec_hash ps
          × ((d : WriterDirective) × (burst_into_directive codec_hash (from_packets ps)
                ≡ ok (some (length ps, d)))
              × (frames_of d ≡ payloads ps)))
      ⊎ ((ps ≢ [])
          × (¬ AllHash codec_hash ps)
          × (burst_into_directive codec_hash (from_packets ps) ≡ err not_reusable))
unfolding burst_into_directive from_packets
directive_cases h [] = inl (refl, refl)
directive_cases h (one ∷ []) = elim (Bool-cases (one.hash == h)) [
  | inl e ↦
      inr (inl (λ x. cc, ((==_iff one.hash h).0 e, tt), (write_msg one.data_bytes, rw e, refl)))
  | inr e ↦ inr (inr (λ x. cc, λ b. cc (e, (==_iff one.hash h).1 b.0), rw e))
]
directive_cases h (one ∷ two ∷ ps) = elim (Bool-cases (two.hash == one.hash)) [
  | inl e ↦ elim (push_packets_cases one.hash (one.data_bytes ∷ two.data_bytes ∷ []) ps) [
    | inl (a, q) ↦ elim (Bool-cases (one.hash == h)) [
      | inl f ↦
          let same : one.hash ≡ h = (==_iff one.hash h).0 f in
          inr (
            inl (
              λ x. cc,
              (same, ((==_iff two.hash one.hash).0 e ∙ same, subst (λ k. AllHash k ps) same a)),
              (
                write_msg_burst (one.data_bytes ∷ two.data_bytes ∷ payloads ps),
                rw (e, q, f, length-payloads ps),
                refl,
              ),
            ))
      | inr f ↦ inr (inr (λ x. cc, λ b. cc (f, (==_iff one.hash h).1 b.0), rw (e, q, f)))
    ]
    | inr (a, q) ↦
        inr (inr (λ x. cc, λ b. a (subst (λ k. AllHash k ps) (sym b.0) b.1.1), rw (e, q)))
  ]
  | inr e ↦ inr (inr (λ x. cc, λ b. cc (e, (==_iff two.hash one.hash).1 (b.1.0 ∙ sym b.0)), rw e))
]

module _ {Q : Type 0} (ch : Channel Q WriterDirective) where
  -- What `try_burst` gives where the channel took the directive, was full, or was closed.
  abbrev pub Tried : ℕ → Q → WriterDirective → Result ℕ TrySendMsgError → Type 0
  Tried n q d r =
      (((ch.try_send q d).1 ≡ ok tt) × (r ≡ ok n))
      ⊎ (((ch.try_send q d).1 ≡ err (full d)) × (r ≡ err TrySendMsgError.channel_at_capacity))
      ⊎ (((ch.try_send q d).1 ≡ err (closed d)) × (r ≡ err TrySendMsgError.channel_closed))

  -- What `burst` gives.
  abbrev pub Sent : ℕ → Q → WriterDirective → Result ℕ SendMsgError → Type 0
  Sent n q d r =
      (((ch.send q d).1 ≡ ok tt) × (r ≡ ok n))
      ⊎ ((e : WriterDirective) × ((ch.send q d).1 ≡ err e) × (r ≡ err SendMsgError.channel_closed))

  -- Nothing is sent, with this result of both.
  abbrev pub SendsNothing : Q → ℕ → PacketWriteBurst → Result ℕ EncodeError → Type 0
  SendsNothing q h b r =
      (send_burst ch q h b ≡ (q, map_err SendMsgError.encode_failed r))
      × (try_burst ch q h b ≡ returns (q, map_err TrySendMsgError.encode_failed r))

  -- One directive is sent.
  abbrev pub SendsOne : Q → ℕ → PacketWriteBurst → ℕ → WriterDirective → Type 0
  SendsOne q h b n d =
      ((r : Result ℕ SendMsgError) × (send_burst ch q h b ≡ ((ch.send q d).0, r)) × Sent n q d r)
      × ((r : Result ℕ TrySendMsgError) × (try_burst ch q h b ≡ returns ((ch.try_send q d).0, r))
          × Tried n q d r)

  frames-not_request :
      (d : WriterDirective) (f : Bytes) (fs : List Bytes)
      → frames_of d ≡ f ∷ fs
      → ((payload : Bytes) × (d ≡ write_msg payload))
        ⊎ ((chunks : List Bytes) × (d ≡ write_msg_burst chunks))
  frames-not_request (write_msg payload) f fs e = inl (payload, refl)
  frames-not_request (write_msg_burst chunks) f fs e = inr (chunks, refl)
  frames-not_request close_immediately f fs e = cc
  frames-not_request close_after_flush f fs e = cc
  frames-not_request flush f fs e = cc
  frames-not_request (write_req_msg payload id) f fs e = cc

  sends_nothing :
      (q : Q) (h : ℕ) (b : PacketWriteBurst)
      → burst_into_directive h b ≡ ok none
      → SendsNothing q h b (ok 0)
  unfolding send_burst try_burst
  sends_nothing q h b e = (rw (e, send_burst) refl, rw (e, try_burst) refl)

  refuses_burst :
      (q : Q) (h : ℕ) (b : PacketWriteBurst)
      → burst_into_directive h b ≡ err not_reusable
      → SendsNothing q h b (err not_reusable)
  unfolding send_burst try_burst
  refuses_burst q h b e = (rw (e, send_burst) refl, rw (e, try_burst) refl)

  -- A directive whose rejection `convert_deferred_write_err` does not panic on.
  Converts : WriterDirective → Type 0
  Converts d = convert_deferred_write_err (full d) ≡ returns TrySendMsgError.channel_at_capacity

  sends_one :
      (q : Q) (h n : ℕ) (b : PacketWriteBurst) (d : WriterDirective)
      → IsChannel ch
      → Converts d
      → burst_into_directive h b ≡ ok (some (n, d))
      → SendsOne q h b n d
  unfolding send_burst try_burst send_frame try_send_frame convert_deferred_write_err Converts
  sends_one q h n b d laws c e = (
    elim (Result-cases (ch.send q d).1) [
      | inl (_, k) ↦ (ok n, rw (e, send_burst) (rw (k, send_frame) refl), inl (k, refl))
      | inr (x, k) ↦ (
        err SendMsgError.channel_closed,
        rw (e, send_burst) (rw (k, send_frame) refl),
        inr (x, k, refl),
      )
    ],
    elim (Result-cases (ch.try_send q d).1) [
      | inl (_, k) ↦ (ok n, rw (e, try_burst) (rw (k, try_send_frame) refl), inl (k, refl))
      | inr (x, k) ↦ elim (laws.try_send_err q d x k) [
        | inl f ↦ (
          err TrySendMsgError.channel_at_capacity,
          rw (e, try_burst) (rw (k ∙ ap err f, try_send_frame) (rw c refl)),
          inr (inl (k ∙ ap err f, refl)),
        )
        | inr f ↦ (
          err TrySendMsgError.channel_closed,
          rw (e, try_burst) (rw (k ∙ ap err f, try_send_frame) refl),
          inr (inr (k ∙ ap err f, refl)),
        )
      ]
    ],
  )

  Converts-of :
      (d : WriterDirective) (ps : List PreparedPacket)
      → ps ≢ []
      → frames_of d ≡ payloads ps
      → Converts d
  unfolding Converts convert_deferred_write_err
  Converts-of d [] nonempty e = absurd (nonempty refl)
  Converts-of d (p ∷ ps) nonempty e = elim (frames-not_request d _ _ e) [
    | inl (payload, same) ↦ rw same refl
    | inr (chunks, same) ↦ rw same refl
  ]

  -- `burst` and `try_burst` of a list of packets, on a channel as documented: for no packets both send
  -- nothing and return 0; where every packet has the hash of the sending codec both send one
  -- directive, whose frames are all payloads in order, and return the number of packets, or the
  -- error of a channel that did not take it; and otherwise, also where a single packet differs, both
  -- send nothing and fail with `NotReusable`.
  pub burst_sends :
      (codec_hash : ℕ) (ps : List PreparedPacket) (q : Q)
      → IsChannel ch
      → ((ps ≡ []) × SendsNothing q codec_hash (from_packets ps) (ok 0))
        ⊎ ((ps ≢ [])
            × AllHash codec_hash ps
            × ((d : WriterDirective) × (frames_of d ≡ payloads ps)
                × SendsOne q codec_hash (from_packets ps) (length ps) d))
        ⊎ ((ps ≢ [])
            × (¬ AllHash codec_hash ps)
            × SendsNothing q codec_hash (from_packets ps) (err not_reusable))
  burst_sends h ps q laws = elim (directive_cases h ps) [
    | inl (e, made) ↦ inl (e, sends_nothing q h (from_packets ps) made)
    | inr (inl (e, all, (d, made, frames))) ↦ inr (
        inl (
          e,
          all,
          (
            d,
            frames,
            sends_one q h (length ps) (from_packets ps) d laws (Converts-of d ps e frames) made,
          ),
        ))
    | inr (inr (e, differ, made)) ↦ inr (inr (e, differ, refuses_burst q h (from_packets ps) made))
  ]
