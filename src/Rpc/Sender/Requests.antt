-- ===== src/Rpc/Sender/Requests.antt =====
-- A request is registered exactly when it is sent, and what its frame holds.
use rpc_it_rs.Base.{
  ℕ, zero, suc, ◌≡◌, refl, ◌∙◌, true, Option, none, some, [], ◌∷◌, length, Result, ok, err, ◌⊎◌,
  Outcome, returns, panics, ◌>>=◌, inl, inr, Option-cases, arith, if-both, if-split,
}
use rpc_it_rs.Base.Assoc.{lookup, lookup-head, remove-head}
use rpc_it_rs.Defs.{Bytes}
use rpc_it_rs.Codec.{Codec, EncodeError}
use rpc_it_rs.Waker.{AtomicWaker}
use rpc_it_rs.Channel.{Channel, IsChannel, TrySendError}
use rpc_it_rs.Rpc.Types.{WriterDirective, write_req_msg, TrySendMsgError}
use rpc_it_rs.Rpc.ReqRep.{RequestContext, Receive, try_allocate_new_request, try_unregister}
use rpc_it_rs.Rpc.ReqRep.Waiters.{Touches-refl}
use rpc_it_rs.Rpc.ReqRep.Invariant.{IsConsistent}
use rpc_it_rs.Rpc.ReqRep.Preserve.{allocate-IsConsistent, try_unregister-IsConsistent}
use rpc_it_rs.Rpc.Sender.{
  Encoded, after_allocate, after_encode, encode_rounds, encode_request, try_send_frame,
  convert_deferred_write_err, try_send_encoded, try_send_request, Sent,
}

-- What an allocation gives: nothing, or an entry for an id that was not there.
abbrev pub Allocates :
    {W : Type 0} → RequestContext W → ℕ → RequestContext W × Option Receive → Type 0
Allocates c id (d, r) =
    ((r ≡ none) × (d ≡ c))
    ⊎ ((x : Receive) × (r ≡ some x)
        × (x.request_id ≡ id)
        × (lookup id c.wait_list ≡ none)
        × (d.wait_list ≡ (id, x.wait_obj) ∷ c.wait_list))

module _ {W : Type 0} (aw : AtomicWaker W) where
  pub allocate_cases :
      (c : RequestContext W) (id : ℕ) → Allocates c id (try_allocate_new_request aw c id)
  unfolding try_allocate_new_request
  allocate_cases c id =
      if-both (Allocates c id) c.expired (inl (refl, refl))
        (elim (Option-cases (lookup id c.wait_list)) [
          | inl e ↦ rw e (
              inr (record { request_id = id; wait_obj = length c.waiters }, refl, refl, refl, refl))
          | inr (at, e) ↦ rw e (inl (refl, refl))
        ])

module _ {W P : Type 0} (aw : AtomicWaker W) (codec : Codec P) where
  -- A round that succeeds registers one new request; any other leaves the context as it was.
  abbrev Registers : RequestContext W → Encoded aw codec → Type 0
  Registers c (d, buf, none) = (d ≡ c) × (c.expired ≡ true)
  Registers c (d, buf, some (err e)) = d ≡ c
  Registers c (d, buf, some (ok x)) =
      (lookup x.request_id c.wait_list ≡ none)
      × (d.wait_list ≡ (x.request_id, x.wait_obj) ∷ c.wait_list)
      × IsConsistent d

  after_allocate-Registers :
      (again : RequestContext W → Bytes → Encoded aw codec) (c : RequestContext W) (id : ℕ)
      (buf : Bytes)
      → IsConsistent c
      → Registers c (again c buf)
      → Registers c (after_allocate aw codec again buf (try_allocate_new_request aw c id))
  unfolding after_allocate
  after_allocate-Registers again c id buf v h =
      go (try_allocate_new_request aw c id) (allocate_cases aw c id)
        (allocate-IsConsistent aw c id v)
    where
      go :
          (p : RequestContext W × Option Receive)
          → Allocates c id p
          → IsConsistent p.0
          → Registers c (after_allocate aw codec again buf p)
      go (d, none) (inl (e, same)) w = rw same h
      go (d, none) (inr (x, e, _, _, _)) w = cc
      go (d, some y) (inl (e, same)) w = cc
      go (d, some y) (inr (x, e, named, fresh, m)) w =
          let q : y ≡ x = ground arith in (rw (q, named) fresh, rw (q, named) m, w)

  encode_rounds-Registers :
      (left : ℕ) (ids : ℕ → ℕ) (c : RequestContext W) (buf method : Bytes) (params : P)
      → IsConsistent c
      → Registers c (encode_rounds aw codec left ids c buf method params)
  unfolding encode_rounds after_encode
  encode_rounds-Registers zero ids c buf method params v = refl
  encode_rounds-Registers (suc left) ids c buf method params v =
      if-split (Registers c) c.expired (λ e. (refl, e))
        (λ e.
          go (codec.encode_request (ids left) method params buf)
            (λ buf'. encode_rounds-Registers left ids c buf' method params v))
    where
      again : RequestContext W → Bytes → Encoded aw codec
      again c' buf' = encode_rounds aw codec left ids c' buf' method params

      go :
          (p : Bytes × Result ℕ EncodeError)
          → ((buf' : Bytes) → Registers c (again c buf'))
          → Registers c (after_encode aw codec again c p)
      go (buf', err e) h = refl
      go (buf', ok id) h = after_allocate-Registers again c id buf' v (h buf')

module _ {Q W P : Type 0} (ch : Channel Q WriterDirective) (aw : AtomicWaker W)
    (codec : Codec P) where
  -- A request frame meets no directive for which `convert_deferred_write_err` panics.
  try_send_request_frame :
      (q : Q) (buf : Bytes) (id : ℕ)
      → IsChannel ch
      → (q' : Q) × (r : Result (Unit {0}) TrySendMsgError) × (try_send_frame ch q
            (write_req_msg buf id)
          ≡ returns (q', r))
  unfolding try_send_frame convert_deferred_write_err
  try_send_request_frame q buf id laws = go (ch.try_send q (write_req_msg buf id)).1 refl
    where
      q' : Q
      q' = (ch.try_send q (write_req_msg buf id)).0

      go :
          (s : Result (Unit {0}) (TrySendError WriterDirective))
          → (ch.try_send q (write_req_msg buf id)).1 ≡ s
          → (q' : Q) × (r : Result (Unit {0}) TrySendMsgError) × (try_send_frame ch q
                (write_req_msg buf id)
              ≡ returns (q', r))
      go (ok _) e = (q', ok tt, rw (e, try_send_frame))
      go (err x) e = elim (laws.try_send_err q _ x e) [
        | inl f ↦ (q', err TrySendMsgError.channel_at_capacity, rw (e, try_send_frame, f))
        | inr f ↦ (q', err TrySendMsgError.channel_closed, rw (e, try_send_frame, f))
      ]

  -- What a call of `try_send_request` leaves on the wait list.
  abbrev pub Sends : RequestContext W → Outcome (Sent ch aw codec TrySendMsgError) → Type 0
  Sends c (returns (q, d, buf, ok x)) =
      IsConsistent d
      × (lookup x.request_id c.wait_list ≡ none)
      × (d.wait_list ≡ (x.request_id, x.wait_obj) ∷ c.wait_list)
  Sends c (returns (q, d, buf, err e)) = IsConsistent d × (d.wait_list ≡ c.wait_list)
  Sends c panics = ⊥

  try_send_encoded-Sends :
      (q : Q) (c : RequestContext W) (e : Encoded aw codec)
      → IsChannel ch
      → IsConsistent c
      → Registers aw codec c e
      → Sends c (try_send_encoded ch aw codec q e)
  unfolding try_send_encoded
  try_send_encoded-Sends q c (d, buf, none) laws v (same, _) = rw same (v, refl)
  try_send_encoded-Sends q c (d, buf, some (err e)) laws v same = rw same (v, refl)
  try_send_encoded-Sends q c (d, buf, some (ok x)) laws v (fresh, m, w) =
      let (q', r, sent) = try_send_request_frame q buf x.request_id laws in rw sent (go q' r)
    where
      go :
          (q' : Q) (r : Result (Unit {0}) TrySendMsgError)
          → Sends c (elim r [
            | ok _ ↦ returns (q', d, [], ok x)
            | err e ↦ try_unregister aw d (some x) >>= λ c'. returns (q', c', [], err e)
          ])
      go q' (ok _) = (w, fresh, m)
      go q' (err e) =
          let found : lookup x.request_id d.wait_list ≡ some x.wait_obj =
            rw m (lookup-head x.request_id x.wait_obj c.wait_list) in
          let (c', gone, w', m', _) =
            try_unregister-IsConsistent aw d d x.request_id x.wait_obj w found
              (Touches-refl aw d x.wait_obj) in
          rw gone (w', m' ∙ rw m (remove-head x.request_id x.wait_obj c.wait_list))

  -- `try_send_request` does not panic. If it returns a handle, the request is registered under an id
  -- that was not on the wait list; on every error, from the codec, from the ids or from the
  -- channel, the wait list is what it was.
  pub try_send_request-Sends :
      (ids : ℕ → ℕ) (q : Q) (c : RequestContext W) (buf method : Bytes) (params : P)
      → IsChannel ch
      → IsConsistent c
      → Sends c (try_send_request ch aw codec ids q c buf method params)
  unfolding try_send_request encode_request
  try_send_request-Sends ids q c buf method params laws v =
      try_send_encoded-Sends q c _ laws v
        (encode_rounds-Registers aw codec 4 ids c [] method params v)
