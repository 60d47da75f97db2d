-- ===== src/Examples/Macros.antt =====
-- The theorems on the procedural macro at a concrete service.
use rpc_it_rs.Base.{
  ℕ, ◌≡◌, refl, ◌⊎◌, Bool, true, false, not, ◌&&◌, ◌||◌, Option, All, none, some, List, [], ◌∷◌,
  ◌++◌, Result, ok, err, returns, get_elem?, if◌then◌else◌,
}
use rpc_it_rs.Base.Text.{codes}
use rpc_it_rs.Defs.{Bytes, index_range}
use rpc_it_rs.Rpc.Inbound.{Inbound, method_bytes, is_request}
use rpc_it_rs.Router.{
  ExecError, route_failed, parse_error, request_on_notify_handler, Router, PathMap, path_map,
  new_builder, finish, route,
}
use rpc_it_rs.Macros.GenRoute.{
  SynPath, MethodDef, GenDesc, FieldExpr, ExprStruct, new, setup_by_struct_expr,
}
use rpc_it_rs.Macros.GenRoute.Generated.{
  RouteFailResponse, from_unit, route_strs, match_from, check_routes, check_targets, direct_route,
  installing, install, variant, HasPattern,
}
use rpc_it_rs.Macros.GenRoute.Setup.{has_flag, listed_routes, setup_by_struct_expr_routes}
use rpc_it_rs.Macros.GenRoute.Installed.{as_routed, item_of, target_closure, install-direct_route}
use rpc_it_rs.Macros.GenFunc.{Attr, method_def}
use rpc_it_rs.Macros.GenFunc.Names.{first_of, given_name, given_routes, method_def_names}

abbrev ident : Bytes → SynPath
ident name = record { leading_colon = false; segments = record { ident = name; plain = true } ∷ [] }

abbrev add : MethodDef
add = record {
  is_req = true;
  method_ident = codes "add";
  name = codes "add";
  routes = codes "plus" ∷ [];
}

abbrev log : MethodDef
log = record { is_req = false; method_ident = codes "log"; name = codes "Log"; routes = [] }

abbrev targets : List GenDesc
targets = new add ∷ new log ∷ []

no_duplicate : (check_targets false 0 targets []).1 ≡ []
unfolding check_targets check_routes route_strs
no_duplicate = refl

-- A notification of the method `Log`.
abbrev notification : Inbound
notification = record {
  buffer = codes "Log";
  method = record { begin = 0; end = 3 };
  payload = record { begin = 3; end = 3 };
  req_id = 0;
}

notification_method : method_bytes notification ≡ returns (codes "Log")
unfolding method_bytes index_range
notification_method = refl

abbrev always : GenDesc → Inbound → Bool
always desc ib = true

abbrev panics_on_error : Unit {0} → Bytes → Bytes → Unit {0} → Unit {0} × RouteFailResponse
panics_on_error st method path e = (tt, from_unit e)

abbrev closed :
    GenDesc
    → Option Inbound
    → (Option Inbound × Result (Unit {0}) ExecError) × Option (Bytes × Inbound)
closed = target_closure false always (none, err parse_error) panics_on_error

targets-HasPattern : All (HasPattern false) targets
unfolding route_strs
targets-HasPattern = (λ e. cc, (λ e. cc, tt))

install-direct_route_example :
    (b : Router PathMap) × (d : Result (Bytes × Inbound) (Inbound × ExecError)) × (install path_map
        false always
        (none, err parse_error)
        panics_on_error
        targets
        tt
        (new_builder [])
      ≡ returns (installing tt b))
    × (direct_route false targets always notification ≡ returns d)
    × (((match_from false 0 targets (codes "Log") ≡ none)
          × (d ≡ err (notification, route_failed))
          × (route path_map (finish path_map b) notification ≡ returns (as_routed d)))
        ⊎ ((i : ℕ) × (desc : GenDesc) × (match_from false 0 targets (codes "Log") ≡ some i)
            × (get_elem? targets i ≡ some desc)
            × (d ≡ (
                if always desc notification
                then ok (variant desc, notification)
                else err (notification, parse_error)))
            × (route path_map (finish path_map b) notification
                ≡ returns (
                    if not desc.def.is_req && is_request notification
                    then err (some notification, request_on_notify_handler)
                    else as_routed d))
            × (get_elem? b.funcs i ≡ some (λ m. (closed desc m).0))
            × ((closed desc (some notification)).1
                ≡ (if not desc.def.is_req && is_request notification then none else item_of d))))
install-direct_route_example =
    install-direct_route false always (none, err parse_error) panics_on_error targets tt
      notification (codes "Log") targets-HasPattern no_duplicate notification_method

-- `VariantName { no_default_route, routes = ["Other"] }`.
abbrev renamed : ExprStruct
renamed = record {
  path = ident (codes "VariantName");
  attrs = [];
  fields =
      record { member = some (codes "no_default_route"); expr = FieldExpr.other }
      ∷ record {
        member = some (codes "routes");
        expr = FieldExpr.array (some (codes "Other") ∷ []);
      }
      ∷ [];
}

setup_by_struct_expr_routes_example :
    ((setup_by_struct_expr (new add) renamed false).0.no_default_route
      ≡ (false || has_flag renamed.fields))
    × ((setup_by_struct_expr (new add) renamed false).0.def.routes ≡ (
        if false || has_flag renamed.fields
        then []
        else add.routes ++ listed_routes renamed.fields))
setup_by_struct_expr_routes_example = setup_by_struct_expr_routes (new add) renamed false

-- `PascalCase` stands as the only case; an upper-case letter is put in front of a text.
abbrev pascal : Unit {0} → Bytes → Bytes
pascal u [] = []
pascal u (c ∷ cs) = b'X' ∷ c ∷ cs

abbrev attributes : List Attr
attributes =
    Attr.name_value (ident (codes "route")) (some (codes "plus"))
    ∷ Attr.name_value (ident (codes "doc")) (some (codes "Adds."))
    ∷ []

method_def_names_example : method_def pascal (some tt) (codes "add") true attributes ≡ record {
  is_req = true;
  method_ident = codes "add";
  name = first_of (given_name attributes) (codes "add");
  routes = given_routes attributes;
}
method_def_names_example =
    method_def_names pascal (some tt) (codes "add") true attributes (λ c. refl)
