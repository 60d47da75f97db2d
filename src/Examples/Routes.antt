-- ===== src/Examples/Routes.antt =====
-- A router with one handler, of src/macros/route.rs.
use rpc_it_rs.Base.{
  ℕ, ◌≡◌, ◌≢◌, refl, ◌⊎◌, none, some, [], ◌∷◌, ok, err, returns, panics, get_elem?,
}
use rpc_it_rs.Defs.{Bytes, index_range}
use rpc_it_rs.Rpc.Inbound.{Inbound, method_bytes}
use rpc_it_rs.Router.{
  ExecFunc, Router, PathMap, path_map, get, new_builder, try_add_routed_handler, finish, route,
  exec, route_failed,
}
use rpc_it_rs.Router.Building.{Builds, starts, adds, add_ok}
use rpc_it_rs.Router.Routing.{route-Builds, try_add_routed_handler_routes, duplicate_path_panics}

abbrev consume : ExecFunc
consume = λ inbound. (none, ok tt)

abbrev one_route : Router PathMap
one_route = record { route_func = (65 ∷ [], 0) ∷ []; funcs = consume ∷ [] }

one_route-Builds : Builds one_route
unfolding new_builder
one_route-Builds =
    adds (new_builder []) one_route (65 ∷ []) consume 0 starts
      (add_ok (new_builder []) (65 ∷ []) consume refl)

abbrev path_a : Bytes
path_a = 65 ∷ []

abbrev path_b : Bytes
path_b = 66 ∷ []

abbrev message : Inbound
message = record {
  buffer = 65 ∷ [];
  method = record { begin = 0; end = 1 };
  payload = record { begin = 1; end = 1 };
  req_id = 0;
}

message_method : method_bytes message ≡ returns (65 ∷ [])
unfolding method_bytes index_range
message_method = refl

route-Builds_example :
    ((get one_route.route_func (65 ∷ []) ≡ none)
      × (route path_map (finish path_map one_route) message
          ≡ returns (err (some message, route_failed))))
    ⊎ ((i : ℕ) × (func : ExecFunc) × (get one_route.route_func (65 ∷ []) ≡ some i)
        × (get_elem? one_route.funcs i ≡ some func)
        × (route path_map (finish path_map one_route) message
            ≡ returns (exec path_map func message)))
route-Builds_example = route-Builds one_route message (65 ∷ []) one_route-Builds message_method

try_add_routed_handler_routes_example :
    (b' : Router PathMap) × (try_add_routed_handler path_map one_route path_b consume ≡ (b', ok 1))
    × (((path_b ≡ path_a)
          × (route path_map (finish path_map b') message ≡ returns (exec path_map consume message)))
        ⊎ ((path_b ≢ path_a)
            × (route path_map (finish path_map b') message
                ≡ route path_map (finish path_map one_route) message)))
try_add_routed_handler_routes_example =
    try_add_routed_handler_routes one_route path_b consume message path_a one_route-Builds refl
      message_method

duplicate_path_panics_example :
    (b' : Router PathMap) × (try_add_routed_handler path_map one_route path_a consume
      ≡ (b', err tt))
    × (route path_map (finish path_map b') message ≡ panics)
duplicate_path_panics_example =
    duplicate_path_panics one_route path_a consume 0 message refl message_method
