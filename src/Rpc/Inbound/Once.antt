-- ===== src/Rpc/Inbound/Once.antt =====
-- A request is answered once: the messages that share it, and the calls on them in any order.
use rpc_it_rs.Base.{
  ℕ, ◌+◌, ◌≤◌, ◌≡◌, refl, ap, ◌⊎◌, inl, inr, Bool, true, false, Option, none, some, List, [], ◌∷◌,
  ◌++◌, Result, ok, err, Outcome, returns, ◌>>=◌, All, length, slice, get_elem?, erase_at,
  if◌then◌else◌, arith,
}
use rpc_it_rs.Defs.{Bytes, NonZeroRangeType, IsNonZeroRange, index_range-in}
use rpc_it_rs.Defs.RangeWord.{req_id_to_inner, to_req_range, to_req_range-req_id_to_inner}
use rpc_it_rs.Codec.{Codec, EncodeError, unhandled}
use rpc_it_rs.Channel.{Channel}
use rpc_it_rs.Rpc.Types.{WriterDirective, write_msg, TrySendResponseError}
use rpc_it_rs.Rpc.Inbound.{
  Inbound, is_request, atomic_take_req_range, take_inbound, clone_message, retrieve_req_id,
  drop_request, ResponsePayload, encoded_payload, encode_response, response, try_response,
  drop_inbound, from_response_error,
}

-- The word is zero, or packs a range of the buffer.
abbrev pub IsInbound : Inbound → Type 0
IsInbound ib =
    (ib.req_id ≡ 0)
    ⊎ ((r : NonZeroRangeType) × IsNonZeroRange r
        × (r.begin ≤ r.end)
        × (r.end ≤ length ib.buffer)
        × (ib.req_id ≡ req_id_to_inner (some r)))

-- One for a message that is still a request.
unfoldable pub holds : Inbound → ℕ
unfolding is_request
holds ib = if is_request ib then 1 else 0

-- One for a response that the call says was sent.
abbrev pub sent : {X : Type 0} → Result (Unit {0}) X → ℕ
sent (ok _) = 1
sent (err e) = 0

-- What the swap gives: nothing for a message that is no request, and else the id's range.
pub atomic_take_cases :
    (ib : Inbound)
    → IsInbound ib
    → ((holds ib ≡ 0) × (is_request ib ≡ false) × ((atomic_take_req_range ib).1 ≡ none))
      ⊎ ((holds ib ≡ 1)
          × (is_request ib ≡ true)
          × ((r : NonZeroRangeType) × IsNonZeroRange r
              × (r.begin ≤ r.end)
              × (r.end ≤ length ib.buffer)
              × ((atomic_take_req_range ib).1 ≡ some r)))
unfolding holds is_request atomic_take_req_range to_req_range
atomic_take_cases ib (inl e) = inl (rw e, rw e, rw e)
atomic_take_cases ib (inr (r, v, a, b, e)) =
    let word = to_req_range-req_id_to_inner r v in
    let nonzero = word.1 in
    inr (ground (arith, e, nonzero), ground (arith, e, nonzero), (r, v, a, b, rw e word.0))

-- Packing what was taken gives the word back.
pub repack :
    (ib : Inbound) → IsInbound ib → req_id_to_inner (atomic_take_req_range ib).1 ≡ ib.req_id
unfolding atomic_take_req_range req_id_to_inner to_req_range
repack ib (inl e) = rw e
repack ib (inr (r, v, a, b, e)) = rw e (ap req_id_to_inner (to_req_range-req_id_to_inner r v).0)

-- A message whose word was taken holds nothing.
pub holds-atomic_take : (ib : Inbound) → holds ((atomic_take_req_range ib).0) ≡ 0
unfolding holds is_request atomic_take_req_range
holds-atomic_take ib = refl

-- A call on one of the messages that are alive.
pub data Call (S : Type 0) : Type 0 where
  takes drops_request drops : Call S
  clones : Bool → Call S
  responds try_responds : Bytes → ResponsePayload S → Call S

abbrev pub holders : List Inbound → ℕ
holders [] = 0
holders (ib ∷ ibs) = holds ib + holders ibs

abbrev pub taken : Option NonZeroRangeType → ℕ
taken none = 0
taken (some r) = 1

abbrev pub drop_sent : Option (Result (Unit {0}) TrySendResponseError) → ℕ
drop_sent none = 0
drop_sent (some r) = sent r

-- One where the channel does not take a message.
abbrev pub refused : {X : Type 0} → Result (Unit {0}) X → ℕ
refused (ok _) = 0
refused (err e) = 1

-- One for a response that cannot be sent: it is not encoded, there is no channel, or the channel does
-- not take its frame. `offers` is what the channel says to the frame.
abbrev pub unsent :
    {Q X : Type 0}
    → (Q → WriterDirective → Q × Result (Unit {0}) X)
    → Option Q
    → Bytes × Result (Unit {0}) EncodeError
    → ℕ
unsent offers tx (frame, err e) = 1
unsent offers none (frame, ok _) = 1
unsent offers (some q) (frame, ok _) = refused (offers q (write_msg frame)).1

module _ {Q S : Type 0} (ch : Channel Q WriterDirective) (codec : Codec S) where
  -- What the codec makes of a response to a message: the frame behind the buffer.
  abbrev pub encoded_for :
      Inbound → Bytes → ResponsePayload S → NonZeroRangeType → Bytes × Result (Unit {0}) EncodeError
  encoded_for ib buf p r =
      codec.encode_response (slice r.begin r.end ib.buffer) (encoded_payload p) buf

  -- The requests that are used up by a response that cannot be sent.
  abbrev pub lost :
      {X : Type 0}
      → (Q → WriterDirective → Q × Result (Unit {0}) X)
      → Option Q
      → Inbound
      → Bytes
      → ResponsePayload S
      → Option NonZeroRangeType
      → ℕ
  lost offers tx ib buf p none = 0
  lost offers tx ib buf p (some r) = unsent offers tx (encoded_for ib buf p r)

  -- The channel, the messages in place of the one that the call is on, the responses that were sent,
  -- those that could not be sent, and the requests that were given up silently.
  abbrev pub Act : Type 0
  Act = Option Q × List Inbound × ℕ × ℕ × ℕ

  unfoldable pub act : Option Q → Inbound → Call S → Outcome Act
  unfolding take_inbound clone_message response try_response drop_request drop_inbound
      from_response_error
  act tx ib takes = returns (tx, (take_inbound ib).0 ∷ (take_inbound ib).1 ∷ [], 0, 0, 0)
  act tx ib (clones b) = returns (tx, (clone_message ib b).0 ∷ (clone_message ib b).1 ∷ [], 0, 0, 0)
  act tx ib (responds buf p) = response ch codec tx ib buf p >>= λ r.
      returns (r.0, r.1 ∷ [], sent r.3, lost ch.send tx ib buf p (atomic_take_req_range ib).1, 0)
  act tx ib (try_responds buf p) = try_response ch codec tx ib buf p >>= λ r.
      returns
        (r.0, r.1 ∷ [], sent r.3, lost ch.try_send tx ib buf p (atomic_take_req_range ib).1, 0)
  act tx ib drops_request =
      returns (tx, drop_request ib ∷ [], 0, 0, taken (atomic_take_req_range ib).1)
  act tx ib drops = drop_inbound ch codec tx ib >>= λ r. returns (
    r.0,
    [],
    drop_sent r.1,
    lost ch.try_send tx ib [] (from_response_error unhandled) (atomic_take_req_range ib).1,
    0,
  )

  -- What waits in the channel.
  abbrev pub waiting : Option Q → List WriterDirective
  waiting none = []
  waiting (some q) = ch.queued q

  -- `n` messages were put behind those that waited.
  abbrev pub Queues : Option Q → Option Q → ℕ → Type 0
  Queues tx tx' n =
      (more : List WriterDirective) × (waiting tx' ≡ waiting tx ++ more) × (length more ≡ n)

  -- The messages that are alive, with the counts so far.
  pub record Handles : Type 0 where
    pub tx : Option Q
    pub live : List Inbound
    pub responses : ℕ
    pub failures : ℕ
    pub silenced : ℕ

  unfoldable pub call_step : Handles → ℕ × Call S → Outcome Handles
  unfolding act
  call_step h (i, c) = elim (get_elem? h.live i) [
    | none ↦ returns h
    | some ib ↦ act h.tx ib c >>= λ a. returns (record {
      tx = a.0;
      live = erase_at i h.live ++ a.1;
      responses = h.responses + a.2;
      failures = h.failures + a.3;
      silenced = h.silenced + a.4;
    })
  ]

  unfoldable pub run_calls : Handles → List (ℕ × Call S) → Outcome Handles
  unfolding call_step
  run_calls h [] = returns h
  run_calls h (c ∷ cs) = call_step h c >>= λ h'. run_calls h' cs

  -- The call succeeds on a message in order, and leaves messages in order that hold no more than it
  -- did, less what was sent, could not be sent or was given up; what was sent is in the channel.
  abbrev pub Conserves : Option Q → Inbound → Outcome Act → Type 0
  Conserves tx ib r =
      (a : Act) × (r ≡ returns a)
      × All IsInbound a.1
      × (holders a.1 + a.2 + a.3 + a.4 ≡ holds ib)
      × Queues tx a.0 a.2

  -- The encoding of a response, for a message that is no request and for one that is.
  pub encode_response_cases :
      (ib : Inbound) (buf : Bytes) (p : ResponsePayload S)
      → IsInbound ib
      → ((holds ib ≡ 0)
          × ((atomic_take_req_range ib).1 ≡ none)
          × (encode_response ch codec ib buf p ≡ returns ((atomic_take_req_range ib).0, buf, none)))
        ⊎ ((holds ib ≡ 1)
            × (is_request ib ≡ true)
            × ((r : NonZeroRangeType) × ((atomic_take_req_range ib).1 ≡ some r)
                × (encode_response ch codec ib buf p
                    ≡ returns (
                      (atomic_take_req_range ib).0,
                      (encoded_for ib buf p r).0,
                      some (encoded_for ib buf p r).1,
                    ))))
  unfolding encode_response retrieve_req_id
  encode_response_cases ib buf p v = elim (atomic_take_cases ib v) [
    | inl (h, q, e) ↦ inl (h, e, rw (e, encode_response))
    | inr (h, q, found) ↦
        let r = found.0 in
        let read = index_range-in r.begin r.end ib.buffer found.2 found.3 in
        inr (h, q, (r, found.4, rw (found.4, read, encode_response, retrieve_req_id)))
  ]
