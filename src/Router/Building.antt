-- ===== src/Router/Building.antt =====
-- Routers built over a map: which builders leave routes that hold, and which do not.
use rpc_it_rs.Base.{
  ℕ, zero, suc, ◌<◌, ◌≡◌, refl, inl, inr, none, some, [], ◌∷◌, ◌++◌, Result, ok, err, returns,
  length, length-append, Option-cases, Bool-cases, arith,
}
use rpc_it_rs.Defs.{Bytes}
use rpc_it_rs.Base.Text.{same_text}
use rpc_it_rs.Router.{
  ExecFunc, Router, PathMap, path_map, get, map_add_route, new_builder, push_handler,
  try_add_route_to_last, try_add_routed_handler,
}

-- Every route leads to a handler.
abbrev pub IsRouted : PathMap → ℕ → Type 0
IsRouted m n = (path : Bytes) (i : ℕ) → get m path ≡ some i → i < n

-- The builders that are reached without `pop_handler` and without a failed `try_add_routed_handler`.
pub data Builds : Router PathMap → Type 0 where
  starts : Builds (new_builder [])
  pushes : (b : Router PathMap) (func : ExecFunc) → Builds b → Builds (push_handler b func)
  aliases :
      (b b' : Router PathMap) (alias : Bytes) (r : Result (Unit {0}) (Unit {0}))
      → Builds b
      → try_add_route_to_last path_map b alias ≡ returns (b', r)
      → Builds b'
  adds :
      (b b' : Router PathMap) (path : Bytes) (func : ExecFunc) (value : ℕ)
      → Builds b
      → try_add_routed_handler path_map b path func ≡ (b', ok value)
      → Builds b'

IsRouted-cons :
    (m : PathMap) (n : ℕ) (path : Bytes) (value : ℕ)
    → IsRouted m n
    → value < n
    → IsRouted ((path, value) ∷ m) n
IsRouted-cons m n path value routed lt query i = elim (Bool-cases (same_text path query)) [
  | inl e ↦ λ found. ground (arith, e, found, lt)
  | inr e ↦ λ found. routed query i (rw e at found)
]

IsRouted-mono : (m : PathMap) (n k : ℕ) → IsRouted m n → n < suc k → IsRouted m k
IsRouted-mono m n k routed lt query i found = let below = routed query i found in omega arith

-- What an insertion leaves.
map_add_route_map :
    (m : PathMap) (path : Bytes) (value : ℕ) → (map_add_route m path value).0 ≡ (path, value) ∷ m
unfolding map_add_route
map_add_route_map m path value = elim (Option-cases (get m path)) [
  | inl e ↦ rw (e, map_add_route)
  | inr (old, e) ↦ rw (e, map_add_route)
]

pub map_add_route_ok :
    (m : PathMap) (path : Bytes) (value : ℕ)
    → get m path ≡ none
    → map_add_route m path value ≡ ((path, value) ∷ m, ok tt)
unfolding map_add_route
map_add_route_ok m path value e = rw (e, map_add_route)

map_add_route_err :
    (m : PathMap) (path : Bytes) (value old : ℕ)
    → get m path ≡ some old
    → map_add_route m path value ≡ ((path, value) ∷ m, err tt)
unfolding map_add_route
map_add_route_err m path value old e = rw (e, map_add_route)

pub alias_lem :
    (b : Router PathMap) (alias : Bytes) (last : ℕ)
    → length b.funcs ≡ suc last
    → try_add_route_to_last path_map b alias
      ≡ returns (
        record b { route_func = (alias, last) ∷ b.route_func },
        (map_add_route b.route_func alias last).1,
      )
unfolding try_add_route_to_last path_map
alias_lem b alias last e =
    rw (e, try_add_route_to_last) (rw (map_add_route_map b.route_func alias last))

pub add_ok :
    (b : Router PathMap) (path : Bytes) (func : ExecFunc)
    → get b.route_func path ≡ none
    → try_add_routed_handler path_map b path func ≡ (
      record { route_func = (path, length b.funcs) ∷ b.route_func; funcs = b.funcs ++ func ∷ [] },
      ok (length b.funcs),
    )
unfolding try_add_routed_handler path_map
add_ok b path func e =
    rw (map_add_route_ok b.route_func path (length b.funcs) e, try_add_routed_handler)
      (rw (map_add_route_map b.route_func path (length b.funcs)))

pub add_err :
    (b : Router PathMap) (path : Bytes) (func : ExecFunc) (old : ℕ)
    → get b.route_func path ≡ some old
    → try_add_routed_handler path_map b path func
      ≡ (record b { route_func = (path, length b.funcs) ∷ b.route_func }, err tt)
unfolding try_add_routed_handler path_map
add_err b path func old e =
    rw (map_add_route_err b.route_func path (length b.funcs) old e, try_add_routed_handler)
      (rw (map_add_route_map b.route_func path (length b.funcs)))

alias-IsRouted :
    (b b' : Router PathMap) (alias : Bytes) (r : Result (Unit {0}) (Unit {0})) (n : ℕ)
    → length b.funcs ≡ n
    → IsRouted b.route_func (length b.funcs)
    → try_add_route_to_last path_map b alias ≡ returns (b', r)
    → IsRouted b'.route_func (length b'.funcs)
unfolding try_add_route_to_last
alias-IsRouted b b' alias r zero n w e = cc (rw (n, try_add_route_to_last) at e)
alias-IsRouted b b' alias r (suc last) n w e =
    let same : record b { route_func = (alias, last) ∷ b.route_func } ≡ b' =
      cc (e, alias_lem b alias last n) in
    rw (← same) (IsRouted-cons b.route_func (length b.funcs) alias last w (omega arith))

pub Builds-IsRouted : (b : Router PathMap) → Builds b → IsRouted b.route_func (length b.funcs)
unfolding new_builder push_handler
Builds-IsRouted _ starts = λ path i e. cc
Builds-IsRouted _ (pushes b func w) =
    IsRouted-mono b.route_func (length b.funcs) _ (Builds-IsRouted b w)
      (omega (arith, length-append b.funcs (func ∷ [])))
Builds-IsRouted _ (aliases b b' alias r w e) =
    alias-IsRouted b b' alias r (length b.funcs) refl (Builds-IsRouted b w) e
Builds-IsRouted _ (adds b b' path func value w e) = elim (Option-cases (get b.route_func path)) [
  | inl q ↦
      let same : record {
        route_func = (path, length b.funcs) ∷ b.route_func;
        funcs = b.funcs ++ func ∷ [];
      }
          ≡ b' =
        cc (e, add_ok b path func q) in
      let more = length-append b.funcs (func ∷ []) in
      rw (← same) (
        IsRouted-cons b.route_func (length (b.funcs ++ func ∷ [])) path (length b.funcs)
          (IsRouted-mono b.route_func (length b.funcs) _ (Builds-IsRouted b w) (omega arith))
          (omega arith))
  | inr (old, q) ↦ cc (e, add_err b path func old q)
]
