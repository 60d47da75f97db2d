-- ===== src/Rpc/ReqRep/Invariant.antt =====
-- The invariant of the request context, and the lemmas on the wait list behind it.
use rpc_it_rs.Base.{ℕ, ◌<◌, ◌≤◌, ◌≡◌, ◌≢◌, subst, some, List, [], ◌∷◌, length, inl, inr, arith}
use rpc_it_rs.Base.Assoc.{lookup, remove, Distinct, lookup-cons}
use rpc_it_rs.Rpc.Types.{ResponseState}
use rpc_it_rs.Rpc.ReqRep.{RequestContext, new_context}
use rpc_it_rs.Rpc.ReqRep.Waiters.{response_at}

-- Addresses fall along the wait list and stay under the bound: each waiter has its own.
abbrev pub Below : ℕ → List (ℕ × ℕ) → Type 0
Below n [] = Unit {0}
Below n ((id, at) ∷ m) = (at < n) × Below at m

-- The waiter was not yet read by its `ReceiveResponse`.
abbrev pub IsLive : ResponseState → Type 0
IsLive ResponseState.none = Unit {0}
IsLive (ResponseState.ready raw errc payload) = Unit {0}
IsLive ResponseState.write_failed = Unit {0}
IsLive ResponseState.pending_remove = ⊥

abbrev pub AllLive : {W : Type 0} → RequestContext W → List (ℕ × ℕ) → Type 0
AllLive c [] = Unit {0}
AllLive c ((id, at) ∷ m) = IsLive (response_at c at) × AllLive c m

-- Request ids are distinct, each has a waiter of its own in the store, and no waiter that is still
-- registered was read.
pub record IsConsistent {W : Type 0} (c : RequestContext W) : Type 0 where
  pub distinct : Distinct c.wait_list
  pub fresh : Below (length c.waiters) c.wait_list
  pub live : AllLive c c.wait_list

pub Below-mono : (m n : ℕ) (l : List (ℕ × ℕ)) → m ≤ n → Below m l → Below n l
Below-mono m n [] h b = tt
Below-mono m n ((id, at) ∷ l) h b = (omega arith, b.1)

pub remove-Below : (k n : ℕ) (l : List (ℕ × ℕ)) → Below n l → Below n (remove k l)
remove-Below k n [] b = tt
remove-Below k n ((id, at) ∷ l) b = ground (arith, remove-Below k at l b.1, Below-mono at n l)

pub lookup-Below : (k n : ℕ) (l : List (ℕ × ℕ)) (at : ℕ) → Below n l → lookup k l ≡ some at → at < n
lookup-Below k n [] at b e = cc
lookup-Below k n ((id, a) ∷ l) at b e = elim (lookup-cons k id a at l e) [
  | inl (h, p) ↦ omega arith
  | inr (h, p) ↦ omega (arith, lookup-Below k a l at b.1 p)
]

module _ {W : Type 0} where
  pub lookup-AllLive :
      (c : RequestContext W) (k : ℕ) (l : List (ℕ × ℕ)) (at : ℕ)
      → AllLive c l
      → lookup k l ≡ some at
      → IsLive (response_at c at)
  lookup-AllLive c k [] at v e = cc
  lookup-AllLive c k ((id, a) ∷ l) at v e = elim (lookup-cons k id a at l e) [
    | inl (h, p) ↦ subst (λ x. IsLive (response_at c x)) p v.0
    | inr (h, p) ↦ lookup-AllLive c k l at v.1 p
  ]

  -- What keeps each live waiter live keeps all.
  pub AllLive-map :
      (c d : RequestContext W) (l : List (ℕ × ℕ))
      → ((j : ℕ) → IsLive (response_at c j) → IsLive (response_at d j))
      → AllLive c l
      → AllLive d l
  AllLive-map c d [] h v = tt
  AllLive-map c d ((id, a) ∷ l) h v = (h a v.0, AllLive-map c d l h v.1)

  -- The waiters below an address are not the one at the address.
  pub AllLive-Below :
      (c d : RequestContext W) (n at : ℕ) (l : List (ℕ × ℕ))
      → Below n l
      → n ≤ at
      → ((j : ℕ) → j ≢ at → response_at d j ≡ response_at c j)
      → AllLive c l
      → AllLive d l
  AllLive-Below c d n at [] b h same v = tt
  AllLive-Below c d n at ((id, a) ∷ l) b h same v =
      (rw (same a (omega arith)) v.0, AllLive-Below c d a at l b.1 (omega arith) same v.1)

  -- The entry that is removed may lose its waiter.
  pub AllLive-remove :
      (c d : RequestContext W) (k n at : ℕ) (l : List (ℕ × ℕ))
      → lookup k l ≡ some at
      → Below n l
      → ((j : ℕ) → j ≢ at → response_at d j ≡ response_at c j)
      → AllLive c l
      → AllLive d (remove k l)
  AllLive-remove c d k n at [] e b same v = cc
  AllLive-remove c d k n at ((id, a) ∷ l) e b same v = elim (lookup-cons k id a at l e) [
    | inl (h, p) ↦ rw h (AllLive-Below c d a at l b.1 (omega arith) same v.1)
    | inr (h, p) ↦ rw h (
      rw (same a (λ q. omega (arith, lookup-Below k a l at b.1 p))) v.0,
      AllLive-remove c d k a at l p b.1 same v.1,
    )
  ]

pub new_context-IsConsistent : {W : Type 0} → IsConsistent (new_context {W = W})
unfolding new_context
new_context-IsConsistent = record { distinct = tt; fresh = tt; live = tt }
