-- ===== src/Rpc/Inbound/Conservation.antt =====
-- The messages that share a request, over any sequence of calls.
use mathlib.Core.List.{append_assoc, append-nil}
use rpc_it_rs.Base.{
  sym, ap, length, length-append, ℕ, zero, suc, ◌+◌, ◌≡◌, refl, ◌∙◌, inl, inr, some, List, [], ◌∷◌,
  ◌++◌, returns, All, get_elem?, erase_at, Option-cases, arith,
}
use rpc_it_rs.Codec.{Codec}
use rpc_it_rs.Channel.{Channel, IsChannel}
use rpc_it_rs.Rpc.Types.{WriterDirective}
use rpc_it_rs.Rpc.Inbound.{Inbound}
use rpc_it_rs.Rpc.Inbound.Once.{
  IsInbound, holds, holders, Call, Handles, call_step, run_calls, waiting,
}
use rpc_it_rs.Rpc.Inbound.Answers.{act-Conserves}

holders-append : (xs ys : List Inbound) → holders (xs ++ ys) ≡ holders xs + holders ys
holders-append [] ys = omega arith
holders-append (x ∷ xs) ys = omega (arith, holders-append xs ys)

holders-erase_at :
    (xs : List Inbound) (i : ℕ) {x : Inbound}
    → get_elem? xs i ≡ some x
    → holders (erase_at i xs) + holds x ≡ holders xs
holders-erase_at [] i e = cc
holders-erase_at (y ∷ xs) zero {x} e = let same : y ≡ x = cc in rw same (omega arith)
holders-erase_at (y ∷ xs) (suc i) e = omega (arith, holders-erase_at xs i e)

All-append : (xs ys : List Inbound) → All IsInbound xs → All IsInbound ys → All IsInbound (xs ++ ys)
All-append [] ys a b = b
All-append (x ∷ xs) ys (p, a) b = (p, All-append xs ys a b)

All-erase_at : (xs : List Inbound) (i : ℕ) → All IsInbound xs → All IsInbound (erase_at i xs)
All-erase_at [] i a = tt
All-erase_at (x ∷ xs) zero (p, a) = a
All-erase_at (x ∷ xs) (suc i) (p, a) = (p, All-erase_at xs i a)

All-get_elem? :
    (xs : List Inbound) (i : ℕ) {x : Inbound}
    → All IsInbound xs
    → get_elem? xs i ≡ some x
    → IsInbound x
All-get_elem? [] i a e = cc
All-get_elem? (y ∷ xs) zero {x} (p, a) e = let same : x ≡ y = cc in rw same p
All-get_elem? (y ∷ xs) (suc i) (p, a) e = All-get_elem? xs i a e

module _ {Q S : Type 0} (ch : Channel Q WriterDirective) (codec : Codec S) where
  -- The requests held, answered, used up by a response that could not be sent, and given up.
  abbrev pub total : Handles ch codec → ℕ
  total h = holders h.live + h.responses + h.failures + h.silenced

  -- What was sent since is in the channel, behind what waited.
  abbrev pub Delivers : Handles ch codec → Handles ch codec → Type 0
  Delivers h h' =
      (more : List WriterDirective) × (waiting ch codec h'.tx ≡ waiting ch codec h.tx ++ more)
      × (h'.responses ≡ h.responses + length more)

  call_step-total :
      (h : Handles ch codec) (c : ℕ × Call S)
      → IsChannel ch
      → All IsInbound h.live
      → (h' : Handles ch codec) × (call_step ch codec h c ≡ returns h')
        × All IsInbound h'.live
        × (total h' ≡ total h)
        × Delivers h h'
  unfolding call_step
  call_step-total h (i, c) laws v = elim (Option-cases (get_elem? h.live i)) [
    | inl e ↦
        (h, rw (e, call_step), v, refl, ([], sym (append-nil (waiting ch codec h.tx)), omega arith))
    | inr (ib, e) ↦
        let (a, q, w, n, (more, queue, count)) =
          act-Conserves ch codec laws h.tx ib c (All-get_elem? h.live i v e) in
        let rest = erase_at i h.live in
        (
          record {
            tx = a.0;
            live = rest ++ a.1;
            responses = h.responses + a.2;
            failures = h.failures + a.3;
            silenced = h.silenced + a.4;
          },
          rw (e, q, call_step),
          All-append rest a.1 (All-erase_at h.live i v) w,
          omega (arith, holders-append rest a.1, holders-erase_at h.live i e, n),
          (more, queue, omega (arith, count)),
        )
  ]

  -- Any sequence of calls (`take`, `clone_message`, `response`, `try_response`, `drop_request`, and
  -- dropping) on messages in order, and on those that the calls make, succeeds without a panic, for
  -- any codec and a channel as documented. Each request is used up once: the number of messages that
  -- are still requests, of responses that were sent, the drop guard's included, of responses that
  -- could not be sent, as they were not encoded, there was no channel, or the channel did not take the
  -- frame, and of requests given up by `drop_request`, stays the same. The channel holds one more
  -- message, behind those that waited, for each response that was sent.
  pub run_calls-total :
      (h : Handles ch codec) (cs : List (ℕ × Call S))
      → IsChannel ch
      → All IsInbound h.live
      → (h' : Handles ch codec) × (run_calls ch codec h cs ≡ returns h')
        × All IsInbound h'.live
        × (total h' ≡ total h)
        × Delivers h h'
  unfolding run_calls
  run_calls-total h [] laws v =
      (h, refl, v, refl, ([], sym (append-nil (waiting ch codec h.tx)), omega arith))
  run_calls-total h (c ∷ cs) laws v =
      let (h1, e1, v1, n1, (more1, q1, k1)) = call_step-total h c laws v in
      let (h2, e2, v2, n2, (more2, q2, k2)) = run_calls-total h1 cs laws v1 in
      (
        h2,
        rw e1 e2,
        v2,
        n2 ∙ n1,
        (
          more1 ++ more2,
          q2
              ∙ ap (λ (w : List WriterDirective). w ++ more2) q1
              ∙ append_assoc (waiting ch codec h.tx) more1 more2,
          omega (arith, k1, k2, length-append more1 more2),
        ),
      )
