-- ===== src/Base/Assoc.antt =====
-- Hash maps with `RequestId` keys, as association lists.
use rpc_it_rs.Base.{
  ℕ, ◌≡◌, refl, List, [], ◌∷◌, Option, none, some, ◌==◌, if◌then◌else◌, arith, true, false, ◌⊎◌,
  inl, inr, Bool-cases,
}

module _ {ℓ} {V : Type ℓ} where
  -- `HashMap::get`.
  abbrev pub lookup : ℕ → List (ℕ × V) → Option V
  lookup k [] = none
  lookup k ((j, v) ∷ m) = if j == k then some v else lookup k m

  -- `HashMap::remove`.
  abbrev pub remove : ℕ → List (ℕ × V) → List (ℕ × V)
  remove k [] = []
  remove k ((j, v) ∷ m) = if j == k then m else (j, v) ∷ remove k m

  -- No key occurs twice.
  abbrev pub Distinct : List (ℕ × V) → Type ℓ
  Distinct [] = Unit {ℓ}
  Distinct ((k, v) ∷ m) = (lookup k m ≡ none) × Distinct m

module _ {ℓ} {V : Type ℓ} where
  pub lookup-remove_ne :
      (k j : ℕ) (m : List (ℕ × V)) → (j == k) ≡ false → lookup k (remove j m) ≡ lookup k m
  lookup-remove_ne k j [] h = refl
  lookup-remove_ne k j ((i, v) ∷ m) h = ground (arith, lookup-remove_ne k j m h)

  pub lookup-remove_self : (k : ℕ) (m : List (ℕ × V)) → Distinct m → lookup k (remove k m) ≡ none
  lookup-remove_self k [] d = refl
  lookup-remove_self k ((i, v) ∷ m) d = ground (arith, lookup-remove_self k m d.1)

  pub lookup-remove_none :
      (k j : ℕ) (m : List (ℕ × V)) → lookup k m ≡ none → lookup k (remove j m) ≡ none
  lookup-remove_none k j [] h = refl
  lookup-remove_none k j ((i, v) ∷ m) h = ground (arith, lookup-remove_none k j m)

  pub remove-Distinct : (k : ℕ) (m : List (ℕ × V)) → Distinct m → Distinct (remove k m)
  remove-Distinct k [] d = d
  remove-Distinct k ((i, v) ∷ m) d =
      ground (arith, remove-Distinct k m d.1, lookup-remove_none i k m d.0)

  -- Where a key is found: at the head, or further down.
  pub lookup-cons :
      (k i : ℕ) (v u : V) (m : List (ℕ × V))
      → lookup k ((i, v) ∷ m) ≡ some u
      → ((i == k) ≡ true) × (v ≡ u) ⊎ ((i == k) ≡ false) × (lookup k m ≡ some u)
  lookup-cons k i v u m e = elim (Bool-cases (i == k)) [
    | inl h ↦ inl (h, ground (arith))
    | inr h ↦ inr (h, ground (arith))
  ]

  pub lookup-head : (k : ℕ) (v : V) (m : List (ℕ × V)) → lookup k ((k, v) ∷ m) ≡ some v
  lookup-head k v m = ground arith

  pub remove-head : (k : ℕ) (v : V) (m : List (ℕ × V)) → remove k ((k, v) ∷ m) ≡ m
  remove-head k v m = ground arith
