-- ===== src/Router/Maps.antt =====
-- Maps from paths.
use rpc_it_rs.Base.{ℕ, ◌≡◌, ◌≢◌, inl, inr, some, ◌∷◌, Bool-cases}
use rpc_it_rs.Defs.{Bytes}
use rpc_it_rs.Base.Text.{same_text, same_text_refl, same_text-eq}
use rpc_it_rs.Router.{PathMap, get}

-- The entry in front is found, and hides no other path.
pub get-head : (path : Bytes) (value : ℕ) (m : PathMap) → get ((path, value) ∷ m) path ≡ some value
get-head path value m = rw (same_text_refl path)

pub get-other :
    (path query : Bytes) (value : ℕ) (m : PathMap)
    → path ≢ query
    → get ((path, value) ∷ m) query ≡ get m query
get-other path query value m ne = elim (Bool-cases (same_text path query)) [
  | inl e ↦ absurd (ne (same_text-eq path query e))
  | inr e ↦ rw e
]
