-- ===== src/Rpc/Sender/Frames.antt =====
-- What the buffer of a request holds when the first random id is taken.
use rpc_it_rs.Base.{ℕ, ◌≡◌, refl, false, Option, none, some, [], ◌∷◌, ◌++◌, ok, length, if-both}
use rpc_it_rs.Base.Assoc.{lookup}
use rpc_it_rs.Defs.{Bytes}
use rpc_it_rs.Codec.{Codec}
use rpc_it_rs.Waker.{AtomicWaker}
use rpc_it_rs.Rpc.Types.{ResponseState}
use rpc_it_rs.Rpc.ReqRep.{RequestContext, Receive, try_allocate_new_request}
use rpc_it_rs.Rpc.Sender.{after_allocate, after_encode, encode_rounds, encode_request}

-- The codec appends one frame to the buffer and keeps the id, as the JSON-RPC codec does.
abbrev pub Appends : {P : Type 0} → Codec P → Bytes → P → (ℕ → Bytes) → Type 0
Appends codec method params frame =
    (id : ℕ) (buf : Bytes) → codec.encode_request id method params buf ≡ (buf ++ frame id, ok id)

module _ {W : Type 0} (aw : AtomicWaker W) where
  allocate_taken :
      (c : RequestContext W) (id at : ℕ)
      → lookup id c.wait_list ≡ some at
      → try_allocate_new_request aw c id ≡ (c, none)
  unfolding try_allocate_new_request
  allocate_taken c id at e =
      if-both (λ (p : RequestContext W × Option Receive). p ≡ (c, none)) c.expired refl (rw e)

  allocate_free :
      (c : RequestContext W) (id : ℕ)
      → c.expired ≡ false
      → lookup id c.wait_list ≡ none
      → (d : RequestContext W) × (try_allocate_new_request aw c id
          ≡ (d, some (record { request_id = id; wait_obj = length c.waiters })))
  unfolding try_allocate_new_request
  allocate_free c id live e = (
    record c {
      wait_list = (id, length c.waiters) ∷ c.wait_list;
      waiters = c.waiters ++ record { waker = aw.new; response = ResponseState.none } ∷ [];
    },
    simp (live, e),
  )

module _ {W P : Type 0} (aw : AtomicWaker W) (codec : Codec P) where
  -- With a codec that appends one frame for the id: where the first random id is free, the request
  -- is registered under it, and the buffer holds its frame alone.
  pub encode_request_frame :
      (ids : ℕ → ℕ) (c : RequestContext W) (buf method : Bytes) (params : P) (frame : ℕ → Bytes)
      → Appends codec method params frame
      → c.expired ≡ false
      → lookup (ids 3) c.wait_list ≡ none
      → (d : RequestContext W) × (encode_request aw codec ids c buf method params ≡ (
        d,
        frame (ids 3),
        some (ok (record { request_id = ids 3; wait_obj = length c.waiters })),
      ))
  unfolding encode_request encode_rounds after_encode after_allocate
  encode_request_frame ids c buf method params frame appends live free =
      let (d, e) = allocate_free aw c (ids 3) live free in (d, simp (live, appends, e))

  -- With a codec that appends one frame to the buffer, which the id, the method and the parameters
  -- give, in a context that is not expired, where the first random id is taken and the second is free, the request is
  -- registered under the second id, but the buffer holds the frame of the taken id in front of the
  -- frame of the second.
  pub encode_request_stale_frame :
      (ids : ℕ → ℕ) (c : RequestContext W) (buf method : Bytes) (params : P) (frame : ℕ → Bytes)
      (at : ℕ)
      → Appends codec method params frame
      → c.expired ≡ false
      → lookup (ids 3) c.wait_list ≡ some at
      → lookup (ids 2) c.wait_list ≡ none
      → (d : RequestContext W) × (encode_request aw codec ids c buf method params ≡ (
        d,
        frame (ids 3) ++ frame (ids 2),
        some (ok (record { request_id = ids 2; wait_obj = length c.waiters })),
      ))
  unfolding encode_request encode_rounds after_encode after_allocate
  encode_request_stale_frame ids c buf method params frame at appends live taken free =
      let (d, e) = allocate_free aw c (ids 2) live free in
      (d, simp (live, appends, allocate_taken aw c (ids 3) at taken, e))
