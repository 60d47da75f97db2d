-- ===== src/Macros/GenRoute/Generated.antt =====
-- macros/src/gen_route.rs: what the generated code does for the targets, and the check of duplicated
-- routes. `global` is the item's attribute `no_default_route`. `parses` stands for serde's reading of
-- the parameters in `__internal_create`.
use rpc_it_rs.Base.{
  ℕ, suc, Bool, true, false, not, ◌&&◌, ◌||◌, Option, none, some, List, [], ◌∷◌, ◌++◌, Result, ok,
  err, Outcome, returns, panics, ◌>>=◌, get_elem?, if◌then◌else◌, ◌≢◌,
}
use rpc_it_rs.Base.Text.{same_text}
use rpc_it_rs.Defs.{Bytes}
use rpc_it_rs.Rpc.Inbound.{Inbound, method_bytes, is_request}
use rpc_it_rs.Router.{
  ExecError, route_failed, parse_error, request_on_notify_handler, ExecFunc, RouterFuncBuilder,
  Router, PathMap, get, push_handler, try_add_route_to_last,
}
use rpc_it_rs.Macros.GenRoute.{GenDesc}

-- `RouteFailResponse`.
pub data RouteFailResponse : Type 0 where
  ignore_and_continue panic abort : RouteFailResponse

-- `From<()>` and `From<bool>`.
abbrev pub from_unit : Unit {0} → RouteFailResponse
from_unit u = panic

abbrev pub from_bool : Bool → RouteFailResponse
from_bool true = ignore_and_continue
from_bool false = abort

-- The routes of a target: its name first, if that is a route.
unfoldable pub route_strs : Bool → GenDesc → List Bytes
route_strs global desc =
    if desc.no_default_route || global then desc.def.routes else desc.def.name ∷ desc.def.routes

-- A pattern of alternatives.
abbrev pub listed : Bytes → List Bytes → Bool
listed route [] = false
listed route (r ∷ rs) = same_text r route || listed route rs

-- The variant of the generated enum that a target has.
abbrev pub variant : GenDesc → Bytes
variant desc = elim desc.variant_ident [ none ↦ desc.def.method_ident | some ident ↦ ident ]

-- A target without a route gives `___inner_match_index` an arm without a pattern, which does not
-- compile.
abbrev pub HasPattern : Bool → GenDesc → Type 0
HasPattern global desc = route_strs global desc ≢ []

-- `___inner_match_index`, from an index on, for targets that each have a pattern.
unfoldable pub match_from : Bool → ℕ → List GenDesc → Bytes → Option ℕ
match_from global index [] route = none
match_from global index (desc ∷ descs) route =
    let rest = match_from global (suc index) descs route in
    if listed route (route_strs global desc) then some index else rest

-- A route that two methods have: the indices of the later and of the earlier target.
pub record Duplicate : Type 0 where
  pub route : Bytes
  pub later : ℕ
  pub earlier : ℕ

abbrev pub duplicates : Bytes → ℕ → Option ℕ → List Duplicate
duplicates route index none = []
duplicates route index (some prev) = record { route = route; later = index; earlier = prev } ∷ []

-- The inner loop of the check. The map's values, a literal and a method, stand as the index of the
-- target that has both; `insert` gives the value that it replaces.
unfoldable pub check_routes : ℕ → List Bytes → PathMap → PathMap × List Duplicate
check_routes index [] m = (m, [])
check_routes index (route ∷ routes) m =
    let (after, errors) = check_routes index routes ((route, index) ∷ m) in
    (after, duplicates route index (get m route) ++ errors)

-- The fold over the targets.
unfoldable pub check_targets : Bool → ℕ → List GenDesc → PathMap → PathMap × List Duplicate
check_targets global index [] m = (m, [])
check_targets global index (desc ∷ descs) m =
    let (m, errors) = check_routes index (route_strs global desc) m in
    let (m, more) = check_targets global (suc index) descs m in (m, errors ++ more)

module _ (global : Bool) (targets : List GenDesc) (parses : GenDesc → Inbound → Bool) where
  -- `matches`.
  unfoldable pub matches : Bytes → Bool
  matches route = elim (match_from global 0 targets route) [ none ↦ false | some index ↦ true ]

  -- The arm of an index; the item stands as its variant and its message.
  abbrev pub create :
      Inbound → Option GenDesc → Outcome (Result (Bytes × Inbound) (Inbound × ExecError))
  create ib none = panics
  create ib (some desc) =
      returns (if parses desc ib then ok (variant desc, ib) else err (ib, parse_error))

  -- `match ___index` behind `let Some(___index)`.
  abbrev pub arm : Inbound → Option ℕ → Outcome (Result (Bytes × Inbound) (Inbound × ExecError))
  arm ib none = returns (err (ib, route_failed))
  arm ib (some index) = create ib (get_elem? targets index)

  -- `route` of the enum, and its `try_from`.
  unfoldable pub direct_route : Inbound → Outcome (Result (Bytes × Inbound) (Inbound × ExecError))
  direct_route ib = method_bytes ib >>= λ method. arm ib (match_from global 0 targets method)

-- `install`. The closure `___on_route_error` has a state `St`; `unwrap_none` stands for the panic of
-- `___inbound.take().unwrap()`, as an `ExecFunc` does not panic here: a router always hands over a
-- message.
pub data Installing (St R : Type 0) : Type 0 where
  installing : St → R → Installing St R
  aborted : St → R → Installing St R

module _ {F E St : Type 0} (rf : RouterFuncBuilder F E) (global : Bool)
    (parses : GenDesc → Inbound → Bool) (unwrap_none : Option Inbound × Result (Unit {0}) ExecError)
    (on_route_error : St → Bytes → Bytes → E → St × RouteFailResponse) where
  -- The closure that is pushed for a target: what it leaves and returns, and the item that it calls
  -- `___handler` with, its variant and its message.
  abbrev pub closure :
      GenDesc
      → Option Inbound
      → (Option Inbound × Result (Unit {0}) ExecError) × Option (Bytes × Inbound)
  closure desc none = (unwrap_none, none)
  closure desc (some ib) =
      if not desc.def.is_req && is_request ib
      then ((some ib, err request_on_notify_handler), none)
      else if parses desc ib
      then ((none, ok tt), some (variant desc, ib))
      else ((some ib, err parse_error), none)

  -- The closure as the router calls it.
  abbrev pub handler : GenDesc → ExecFunc
  handler desc ib = (closure desc ib).0

  -- The loop over the routes of a target.
  unfoldable pub install_routes :
      Bytes → List Bytes → St → Router F → Outcome (Installing St (Router F))
  install_routes method [] st b = returns (installing st b)
  install_routes method (route ∷ routes) st b = do
    (b, added) ← try_add_route_to_last rf b route
    elim added [
      | ok u ↦ install_routes method routes st b
      | err e ↦
          let (st, response) = on_route_error st method route e in
          elim response [
            | ignore_and_continue ↦ install_routes method routes st b
            | panic ↦ panics
            | abort ↦ returns (aborted st b)
          ]
    ]

  unfoldable pub install : List GenDesc → St → Router F → Outcome (Installing St (Router F))
  install [] st b = returns (installing st b)
  install (desc ∷ descs) st b = do
    r ←
        install_routes desc.def.method_ident (route_strs global desc) st
          (push_handler b (handler desc))
    elim r [ aborted st b ↦ returns (aborted st b) | installing st b ↦ install descs st b ]
