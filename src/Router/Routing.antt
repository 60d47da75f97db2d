-- ===== src/Router/Routing.antt =====
-- What a finished router does with a message.
use rpc_it_rs.Base.{
  ℕ, ◌≡◌, ◌≢◌, refl, sym, ap, ◌∙◌, ◌⊎◌, inl, inr, Option, none, some, List, [], ◌∷◌, ◌++◌, ok, err,
  returns, panics, unwrap, length, get_elem?, get_elem?-lt, get_elem?-append_left,
  get_elem?-append_last, lt_of_some, Option-cases, Bool-cases, ◌>>=◌,
}
use rpc_it_rs.Defs.{Bytes}
use rpc_it_rs.Rpc.Inbound.{Inbound, method_bytes}
use rpc_it_rs.Base.Text.{same_text, same_text-eq, same_text_refl}
use rpc_it_rs.Router.{
  ExecFunc, Router, PathMap, path_map, get, try_add_routed_handler, finish, route, exec,
  route_failed,
}
use rpc_it_rs.Router.Maps.{get-head, get-other}
use rpc_it_rs.Router.Building.{Builds, Builds-IsRouted, add_ok, add_err}

get_elem?-length {ℓ} : {A : Type ℓ} (xs : List A) → get_elem? xs (length xs) ≡ none
get_elem?-length [] = refl
get_elem?-length (x ∷ xs) = get_elem?-length xs

-- A router that was built without `pop_handler` and without a failed `try_add_routed_handler` never
-- panics on a message whose method can be read: it runs the handler that the method is routed to, or
-- gives the message back with `RouteFailed` where there is no route.
pub route-Builds :
    (b : Router PathMap) (inbound : Inbound) (method : Bytes)
    → Builds b
    → method_bytes inbound ≡ returns method
    → ((get b.route_func method ≡ none)
        × (route path_map (finish path_map b) inbound ≡ returns (err (some inbound, route_failed))))
      ⊎ ((i : ℕ) × (func : ExecFunc) × (get b.route_func method ≡ some i)
          × (get_elem? b.funcs i ≡ some func)
          × (route path_map (finish path_map b) inbound ≡ returns (exec path_map func inbound)))
unfolding route finish path_map
route-Builds b inbound method w m = elim (Option-cases (get b.route_func method)) [
  | inl e ↦ inl (e, rw (m, e, route))
  | inr (i, e) ↦
      let (func, f) = get_elem?-lt b.funcs i (Builds-IsRouted b w method i e) in
      inr (i, func, e, f, rw (m, e, f, route))
]

pub not_routed :
    (b : Router PathMap) (inbound : Inbound) (method : Bytes)
    → method_bytes inbound ≡ returns method
    → get b.route_func method ≡ none
    → route path_map (finish path_map b) inbound ≡ returns (err (some inbound, route_failed))
unfolding route finish path_map
not_routed b inbound method m e = rw (m, e, route)

-- The handler at the index of the method's route, if there is one.
pub routes_to :
    (b : Router PathMap) (inbound : Inbound) (method : Bytes) (i : ℕ) (found : Option ExecFunc)
    → method_bytes inbound ≡ returns method
    → get b.route_func method ≡ some i
    → get_elem? b.funcs i ≡ found
    → route path_map (finish path_map b) inbound
      ≡ (unwrap found >>= λ func. returns (exec path_map func inbound))
unfolding route finish path_map
routes_to b inbound method i found m e f = rw (m, e, f, route)

-- A handler added under a new path gets the next index and the messages of that path. A message of
-- another path is routed as before, where the router was built without `pop_handler` and without a
-- failed `try_add_routed_handler`.
pub try_add_routed_handler_routes :
    (b : Router PathMap) (path : Bytes) (func : ExecFunc) (inbound : Inbound) (method : Bytes)
    → Builds b
    → get b.route_func path ≡ none
    → method_bytes inbound ≡ returns method
    → (b' : Router PathMap) × (try_add_routed_handler path_map b path func
        ≡ (b', ok (length b.funcs)))
      × (((path ≡ method)
            × (route path_map (finish path_map b') inbound ≡ returns (exec path_map func inbound)))
          ⊎ ((path ≢ method)
              × (route path_map (finish path_map b') inbound
                  ≡ route path_map (finish path_map b) inbound)))
try_add_routed_handler_routes b path func inbound method w new m =
    (added, add_ok b path func new, split)
  where
    added : Router PathMap
    added = record {
      route_func = (path, length b.funcs) ∷ b.route_func;
      funcs = b.funcs ++ func ∷ [];
    }

    other :
        path ≢ method
        → route path_map (finish path_map added) inbound
          ≡ route path_map (finish path_map b) inbound
    other ne =
        let kept = get-other path method (length b.funcs) b.route_func ne in
        elim (route-Builds b inbound method w m) [
          | inl (e, r) ↦ not_routed added inbound method m (kept ∙ e) ∙ sym r
          | inr (i, f, e, at, r) ↦
              routes_to added inbound method i (some f) m (kept ∙ e)
                (get_elem?-append_left b.funcs (func ∷ []) i (lt_of_some b.funcs i at) ∙ at)
              ∙ sym r
        ]

    split :
        ((path ≡ method)
          × (route path_map (finish path_map added) inbound ≡ returns (exec path_map func inbound)))
        ⊎ ((path ≢ method)
            × (route path_map (finish path_map added) inbound
                ≡ route path_map (finish path_map b) inbound))
    split = elim (Bool-cases (same_text path method)) [
      | inl e ↦
          let same = same_text-eq path method e in
          inl (
            same,
            routes_to added inbound method (length b.funcs) (some func) m
                (ap (get added.route_func) (sym same) ∙ get-head path (length b.funcs) b.route_func)
                (get_elem?-append_last b.funcs func),
          )
      | inr e ↦
          let ne : path ≢ method = λ same. cc (e, same, same_text_refl path) in inr (ne, other ne)
    ]

-- Adding a handler under a path that has a route fails, but the route is changed: it then leads to
-- the index of the handler that was not added, and the router panics on every message of the path.
pub duplicate_path_panics :
    (b : Router PathMap) (path : Bytes) (func : ExecFunc) (old : ℕ) (inbound : Inbound)
    → get b.route_func path ≡ some old
    → method_bytes inbound ≡ returns path
    → (b' : Router PathMap) × (try_add_routed_handler path_map b path func ≡ (b', err tt))
      × (route path_map (finish path_map b') inbound ≡ panics)
duplicate_path_panics b path func old inbound e m =
    let left : Router PathMap = record b { route_func = (path, length b.funcs) ∷ b.route_func } in
    (
      left,
      add_err b path func old e,
      routes_to left inbound path (length b.funcs) none m
          (get-head path (length b.funcs) b.route_func) (get_elem?-length b.funcs),
    )
