-- ===== src/Macros/GenRoute/Installed.antt =====
-- The generated `install` over a map, and the generated `route`.
use rpc_it_rs.Base.{
  ℕ, zero, suc, ◌≡◌, refl, sym, subst, ap, ◌∙◌, ◌⊎◌, inl, inr, Bool, not, ◌&&◌, Option, none, some,
  List, [], ◌∷◌, ◌++◌, map, All, Result, ok, err, Outcome, returns, length, length-append,
  get_elem?, if◌then◌else◌, Bool-cases, arith,
}
use mathlib.Core.List.{append_assoc, append-nil}
use rpc_it_rs.Defs.{Bytes}
use rpc_it_rs.Rpc.Inbound.{Inbound, method_bytes, is_request}
use rpc_it_rs.Router.{
  ExecError, route_failed, parse_error, request_on_notify_handler, ExecFunc, Router, PathMap,
  path_map, get, map_add_route, push_handler, new_builder, finish, route, exec,
}
use rpc_it_rs.Router.Building.{alias_lem, map_add_route_ok}
use rpc_it_rs.Router.Routing.{not_routed, routes_to}
use rpc_it_rs.Macros.GenRoute.{GenDesc}
use rpc_it_rs.Macros.GenRoute.Generated.{
  RouteFailResponse, route_strs, match_from, duplicates, check_routes, check_targets, direct_route,
  arm, create, Installing, installing, handler, closure, variant, HasPattern, install_routes,
  install,
}
use rpc_it_rs.Macros.GenRoute.Routes.{
  append_nil, duplicates_none, check_targets-Leads, match_from-some,
}

get_elem?-map :
    {A B : Type 0} (f : A → B) (xs : List A) (i : ℕ) (x : A)
    → get_elem? xs i ≡ some x
    → get_elem? (map f xs) i ≡ some (f x)
get_elem?-map f [] i x e = cc e
get_elem?-map f (y ∷ xs) zero x e = cc e
get_elem?-map f (y ∷ xs) (suc i) x e = get_elem?-map f xs i x e

abbrev answer :
    Option Inbound → Result (Unit {0}) ExecError → Result (Unit {0}) (Option Inbound × ExecError)
answer rest (ok u) = ok tt
answer rest (err e) = err (rest, e)

exec_of :
    (func : ExecFunc) (ib : Inbound) (rest : Option Inbound) (r : Result (Unit {0}) ExecError)
    → func (some ib) ≡ (rest, r)
    → exec path_map func ib ≡ answer rest r
exec_of func ib rest (ok u) e = rw (e, exec)
exec_of func ib rest (err x) e =
    rw (ap (λ (p : Option Inbound × Result (Unit {0}) ExecError). p.1) e, exec)
      (ap (λ (p : Option Inbound × Result (Unit {0}) ExecError). err (p.0, x)) e)

-- A result of the generated `route` as one of a router.
abbrev pub as_routed :
    Result (Bytes × Inbound) (Inbound × ExecError) → Result (Unit {0}) (Option Inbound × ExecError)
as_routed (ok item) = ok tt
as_routed (err (ib, e)) = err (some ib, e)

-- The item that the generated `route` makes, if it does.
abbrev pub item_of : Result (Bytes × Inbound) (Inbound × ExecError) → Option (Bytes × Inbound)
item_of (ok item) = some item
item_of (err e) = none

-- What parsing gives: the item of the target's variant, or the message back.
abbrev pub parsed_item :
    (GenDesc → Inbound → Bool) → GenDesc → Inbound → Result (Bytes × Inbound) (Inbound × ExecError)
parsed_item parses desc ib = if parses desc ib then ok (variant desc, ib) else err (ib, parse_error)

module _ {St : Type 0} (global : Bool) (parses : GenDesc → Inbound → Bool)
    (unwrap_none : Option Inbound × Result (Unit {0}) ExecError)
    (on_route_error : St → Bytes → Bytes → Unit {0} → St × RouteFailResponse) where
  -- New routes are all added, under the last handler.
  install_routes_ok :
      (method : Bytes) (routes : List Bytes) (last : ℕ) (st : St) (b : Router PathMap)
      → length b.funcs ≡ suc last
      → (check_routes last routes b.route_func).1 ≡ []
      → install_routes path_map global parses unwrap_none on_route_error method routes st b
        ≡ returns
            (installing st (record b { route_func = (check_routes last routes b.route_func).0 }))
  unfolding install_routes check_routes
  install_routes_ok method [] last st b n e = refl
  install_routes_ok method (r ∷ rs) last st b n e =
      let (first, rest) =
        append_nil (duplicates r last (get b.route_func r))
          (check_routes last rs ((r, last) ∷ b.route_func)).1 e in
      let fresh = duplicates_none r last (get b.route_func r) first in
      let added : (map_add_route b.route_func r last).1 ≡ ok tt =
        ap (λ p. p.1) (map_add_route_ok b.route_func r last fresh) in
      rw (alias_lem b r last n, added)
        (install_routes_ok method rs last st (record b { route_func = (r, last) ∷ b.route_func }) n
          rest)

  abbrev target_handler : GenDesc → ExecFunc
  target_handler = handler path_map global parses unwrap_none on_route_error

  abbrev pub target_closure :
      GenDesc
      → Option Inbound
      → (Option Inbound × Result (Unit {0}) ExecError) × Option (Bytes × Inbound)
  target_closure = closure path_map global parses unwrap_none on_route_error

  called :
      (desc : GenDesc) (ib : Inbound)
      → (target_closure desc (some ib)).1 ≡ (
          if not desc.def.is_req && is_request ib
          then none
          else item_of (parsed_item parses desc ib))
  called desc ib = elim (Bool-cases (not desc.def.is_req && is_request ib)) [
    | inl refused ↦ rw refused refl
    | inr taken ↦ elim (Bool-cases (parses desc ib)) [
      | inl parsed ↦ rw (taken, parsed) refl
      | inr failed ↦ rw (taken, failed) refl
    ]
  ]

  install_ok :
      (targets : List GenDesc) (n : ℕ) (st : St) (b : Router PathMap)
      → length b.funcs ≡ n
      → (check_targets global n targets b.route_func).1 ≡ []
      → install path_map global parses unwrap_none on_route_error targets st b
        ≡ returns (
            installing st (record {
              route_func = (check_targets global n targets b.route_func).0;
              funcs = b.funcs ++ map target_handler targets;
            }))
  unfolding install check_targets push_handler
  install_ok [] n st b e d =
      ap (λ (fs : List ExecFunc). returns (installing st (record b { funcs = fs })))
        (sym (append-nil b.funcs))
  install_ok (desc ∷ descs) n st b e d =
      let routes = route_strs global desc in
      let (mine, later) =
        append_nil (check_routes n routes b.route_func).1
          (check_targets global (suc n) descs (check_routes n routes b.route_func).0).1 d in
      let pushed : Router PathMap = record b { funcs = b.funcs ++ target_handler desc ∷ [] } in
      let longer : length pushed.funcs ≡ suc n =
        omega (arith, e, length-append b.funcs (target_handler desc ∷ [])) in
      let done = install_routes_ok desc.def.method_ident routes n st pushed longer mine in
      let rest =
        install_ok descs (suc n) st
          (record pushed { route_func = (check_routes n routes b.route_func).0 }) longer later in
      let all : Router PathMap → List ExecFunc → Outcome (Installing St (Router PathMap)) =
        λ r fs. returns (installing st (record r { funcs = fs })) in
      rw done (
        rest
        ∙ ap
            (all (record b {
              route_func =
                  (check_targets global (suc n) descs (check_routes n routes b.route_func).0).0;
            }))
            (append_assoc b.funcs (target_handler desc ∷ []) (map target_handler descs)))

  -- What `install` leaves, from an empty map.
  abbrev installed_router : List GenDesc → Router PathMap
  installed_router targets = record {
    route_func = (check_targets global 0 targets []).0;
    funcs = map target_handler targets;
  }

  -- What the closure leaves and returns.
  abbrev left : GenDesc → Inbound → Option Inbound × Result (Unit {0}) ExecError
  left desc ib =
      if not desc.def.is_req && is_request ib
      then (some ib, err request_on_notify_handler)
      else if parses desc ib
      then (none, ok tt)
      else (some ib, err parse_error)

  target_handler_lem :
      (desc : GenDesc) (ib : Inbound) → target_handler desc (some ib) ≡ left desc ib
  target_handler_lem desc ib = elim (Bool-cases (not desc.def.is_req && is_request ib)) [
    | inl refused ↦ rw (target_handler, handler, closure, refused) refl
    | inr taken ↦ elim (Bool-cases (parses desc ib)) [
      | inl parsed ↦ rw (target_handler, handler, closure, taken, parsed) refl
      | inr failed ↦ rw (target_handler, handler, closure, taken, failed) refl
    ]
  ]

  exec-target_handler :
      (desc : GenDesc) (ib : Inbound)
      → exec path_map (target_handler desc) ib ≡ (
          if not desc.def.is_req && is_request ib
          then err (some ib, request_on_notify_handler)
          else as_routed (parsed_item parses desc ib))
  exec-target_handler desc ib = elim (Bool-cases (not desc.def.is_req && is_request ib)) [
    | inl refused ↦
        exec_of (target_handler desc) ib (some ib) (err request_on_notify_handler)
          (target_handler_lem desc ib ∙ rw refused refl)
        ∙ rw refused
    | inr taken ↦ elim (Bool-cases (parses desc ib)) [
      | inl parsed ↦
          exec_of (target_handler desc) ib none (ok tt)
            (target_handler_lem desc ib ∙ rw (taken, parsed) refl)
          ∙ rw (taken, parsed)
      | inr failed ↦
          exec_of (target_handler desc) ib (some ib) (err parse_error)
            (target_handler_lem desc ib ∙ rw (taken, failed) refl)
          ∙ rw (taken, failed)
    ]
  ]

  -- Where every target has a route and no duplicated route is reported, `install` into an empty
  -- map succeeds without a call of `___on_route_error`. For every message whose method lies in
  -- its buffer the router that it builds and the generated `route` choose the same target: the
  -- message is given back with the same error where there is no route or where the parameters
  -- cannot be parsed; where they are parsed `route` makes the item of the target's variant and
  -- the message, and the closure of the router calls `___handler` with that item, once. But the
  -- router refuses a request for a notification, without a call of `___handler`, which `route`
  -- takes.
  pub install-direct_route :
      (targets : List GenDesc) (st : St) (ib : Inbound) (method : Bytes)
      → All (HasPattern global) targets
      → (check_targets global 0 targets []).1 ≡ []
      → method_bytes ib ≡ returns method
      → (b : Router PathMap) × (d : Result (Bytes × Inbound) (Inbound × ExecError)) × (install
            path_map global parses unwrap_none on_route_error targets st
            (new_builder [])
          ≡ returns (installing st b))
        × (direct_route global targets parses ib ≡ returns d)
        × (((match_from global 0 targets method ≡ none)
              × (d ≡ err (ib, route_failed))
              × (route path_map (finish path_map b) ib ≡ returns (as_routed d)))
            ⊎ ((i : ℕ) × (desc : GenDesc) × (match_from global 0 targets method ≡ some i)
                × (get_elem? targets i ≡ some desc)
                × (d ≡ (if parses desc ib then ok (variant desc, ib) else err (ib, parse_error)))
                × (route path_map (finish path_map b) ib
                    ≡ returns (
                        if not desc.def.is_req && is_request ib
                        then err (some ib, request_on_notify_handler)
                        else as_routed d))
                × (get_elem? b.funcs i ≡ some (λ m. (target_closure desc m).0))
                × ((target_closure desc (some ib)).1
                    ≡ (if not desc.def.is_req && is_request ib then none else item_of d))))
  unfolding direct_route new_builder
  install-direct_route targets st ib method patterns e m =
      let reached : direct_route global targets parses ib
          ≡ arm global targets parses ib (match_from global 0 targets method) =
        rw (m, direct_route) in
      let done = install_ok targets 0 st (new_builder []) refl e in
      elim (check_targets-Leads global 0 targets [] method e) [
        | inl (unmatched, same) ↦ (
          installed_router targets,
          err (ib, route_failed),
          done,
          reached ∙ ap (arm global targets parses ib) unmatched,
          inl (unmatched, refl, not_routed (installed_router targets) ib method m same),
        )
        | inr (i, found, after, fresh) ↦
            let (place, desc, same, at, here) = match_from-some global 0 targets method i found in
            let q : place ≡ i = omega (arith, same) in
            let target = subst (λ (n : ℕ). get_elem? targets n ≡ some desc) q at in
            (
              installed_router targets,
              parsed_item parses desc ib,
              done,
              reached
                  ∙ ap (arm global targets parses ib) found
                  ∙ ap (create global targets parses ib) target,
              inr (
                i,
                desc,
                found,
                target,
                refl,
                routes_to (installed_router targets) ib method i (some (target_handler desc)) m
                      after (get_elem?-map target_handler targets i desc target)
                    ∙ ap returns (exec-target_handler desc ib),
                get_elem?-map target_handler targets i desc target,
                called desc ib,
              ),
            )
      ]
