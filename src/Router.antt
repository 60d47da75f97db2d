-- ===== src/Router.antt =====
-- src/macros/route.rs: handlers in a vector, and a map from method names to their indices.
pub mod Maps
pub mod Building
pub mod Routing
use rpc_it_rs.Base.{
  ℕ, zero, suc, ◌-◌, Bool, true, false, ◌&&◌, Option, none, some, List, [], ◌∷◌, ◌++◌, Result, ok,
  err, Outcome, returns, panics, ◌>>=◌, unwrap, ◌==◌, length, get_elem?, if◌then◌else◌,
}
use rpc_it_rs.Base.Text.{same_text}
use rpc_it_rs.Defs.{Bytes}
use rpc_it_rs.Rpc.Inbound.{Inbound, method_bytes}

pub data ExecError : Type 0 where
  route_failed parse_error request_on_notify_handler : ExecError

-- `ExecFunc`: what is left of the message, and the result.
abbrev pub ExecFunc : Type 0
ExecFunc = Option Inbound → Option Inbound × Result (Unit {0}) ExecError

-- The traits `RouterFuncBuilder` and `RouterFunc`, by the builder `F` and its error `E`.
pub record RouterFuncBuilder (F E : Type 0) : Type 0 where
  pub add_route : F → Bytes → ℕ → F × Result (Unit {0}) E
  pub finish_func : F → F
  pub route_index : F → Bytes → Option ℕ

-- `Router`, and `RouterBuilder`, which wraps one.
pub record Router (F : Type 0) : Type 0 where
  pub route_func : F
  pub funcs : List ExecFunc

-- `Vec::pop`, of which the result is not used.
abbrev pub pop {ℓ} : {A : Type ℓ} → List A → List A
pop [] = []
pop (x ∷ []) = []
pop (x ∷ y ∷ xs) = x ∷ pop (y ∷ xs)

unfoldable pub new_builder : {F : Type 0} → F → Router F
new_builder builder = record { route_func = builder; funcs = [] }

unfoldable pub push_handler : {F : Type 0} → Router F → ExecFunc → Router F
push_handler b func = record b { funcs = b.funcs ++ func ∷ [] }

unfoldable pub pop_handler : {F : Type 0} → Router F → Router F
pop_handler b = record b { funcs = pop b.funcs }

module _ {F E : Type 0} (rf : RouterFuncBuilder F E) where
  -- `len() - 1` panics where there is no handler.
  unfoldable pub try_add_route_to_last : Router F → Bytes → Outcome (Router F × Result (Unit {0}) E)
  try_add_route_to_last b alias = elim (length b.funcs) [
    | zero ↦ panics
    | suc last ↦
        let (route_func, r) = rf.add_route b.route_func alias last in
        returns (record b { route_func = route_func }, r)
  ]

  unfoldable pub try_add_routed_handler : Router F → Bytes → ExecFunc → Router F × Result ℕ E
  try_add_routed_handler b path func =
      let value = length b.funcs in
      let (route_func, r) = rf.add_route b.route_func path value in
      elim r [
        | err e ↦ (record b { route_func = route_func }, err e)
        | ok _ ↦ (record { route_func = route_func; funcs = b.funcs ++ func ∷ [] }, ok value)
      ]

  unfoldable pub finish : Router F → Router F
  finish b = record b { route_func = rf.finish_func b.route_func }

  abbrev pub Routed : Type 0
  Routed = Result (Unit {0}) (Option Inbound × ExecError)

  -- The call of the handler.
  abbrev pub exec : ExecFunc → Inbound → Routed
  exec func inbound =
      let (rest, r) = func (some inbound) in elim r [ ok _ ↦ ok tt | err e ↦ err (rest, e) ]

  -- `Router::route`.
  unfoldable pub route : Router F → Inbound → Outcome Routed
  unfolding method_bytes
  route router inbound = do
    method ← method_bytes inbound
    elim (rf.route_index router.route_func method) [
      | none ↦ returns (err (some inbound, route_failed))
      | some index ↦ unwrap (get_elem? router.funcs index) >>= λ func. returns (exec func inbound)
    ]

-- `HashMap` and `BTreeMap` with their `get`; the newest entry of a key counts.
abbrev pub PathMap : Type 0
PathMap = List (Bytes × ℕ)

abbrev pub get : PathMap → Bytes → Option ℕ
get [] query = none
get ((path, value) ∷ m) query = if same_text path query then some value else get m query

-- `define_for!`: `insert` replaces the value before the result says that there was one.
unfoldable pub map_add_route : PathMap → Bytes → ℕ → PathMap × Result (Unit {0}) (Unit {0})
map_add_route m path value = elim (get m path) [
  | none ↦ ((path, value) ∷ m, ok tt)
  | some old ↦ ((path, value) ∷ m, err tt)
]

unfoldable pub path_map : RouterFuncBuilder PathMap (Unit {0})
unfolding map_add_route
path_map = record { add_route = map_add_route; finish_func = λ m. m; route_index = get }
