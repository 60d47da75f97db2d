-- ===== src/Macros/GenRoute.antt =====
-- macros/src/gen_route.rs: the targets of a `Route` item. What goes into the generated code is in
-- `Generated`. A compile error that is emitted is a value; the macro goes on after it.
pub mod Generated
pub mod Routes
pub mod Setup
pub mod Installed
use rpc_it_rs.Base.{
  ℕ, Bool, true, false, ◌&&◌, ◌||◌, not, Option, none, some, List, [], ◌∷◌, ◌++◌, map, Outcome,
  returns, panics, ◌>>=◌, unwrap, if◌then◌else◌,
}
use rpc_it_rs.Base.Text.{codes, same_text}
use rpc_it_rs.Defs.{Bytes}

-- A segment of a path; `plain` where it has no generic arguments.
pub record Segment : Type 0 where
  pub ident : Bytes
  pub plain : Bool

pub record SynPath : Type 0 where
  pub leading_colon : Bool
  pub segments : List Segment

-- The only segment of a path, if it has no leading colon.
abbrev pub single : Bool → List Segment → Option Segment
single true segments = none
single false [] = none
single false (s ∷ []) = some s
single false (s ∷ t ∷ segments) = none

-- `Path::get_ident`.
abbrev pub get_ident : SynPath → Option Bytes
get_ident p = elim (single p.leading_colon p.segments) [
  | none ↦ none
  | some s ↦ if s.plain then some s.ident else none
]

abbrev pub is_named : Option Bytes → Bytes → Bool
is_named none name = false
is_named (some ident) name = same_text ident name

-- `Path::is_ident`.
abbrev pub is_ident : SynPath → Bytes → Bool
is_ident p name = is_named (get_ident p) name

-- `path_as_mono_seg`, of which the code reads the identifier.
abbrev pub path_as_mono_seg : SynPath → Option Bytes
path_as_mono_seg p = elim (single p.leading_colon p.segments) [
  | none ↦ none
  | some s ↦ some s.ident
]

pub record MethodDef : Type 0 where
  pub is_req : Bool
  pub method_ident : Bytes
  pub name : Bytes
  pub routes : List Bytes

pub data Meta : Type 0 where
  path : SynPath → Meta
  other : Bytes → Meta

-- `GenDesc`.
pub record GenDesc : Type 0 where
  pub variant_ident : Option Bytes
  pub no_default_route : Bool
  pub attrs : List Meta
  pub def : MethodDef

pub data CompileError : Type 0 where
  failed_to_parse expected_string_literal unknown_field unknown_method : CompileError
  expected_path expected_alias expected_declaration expected_all : CompileError

-- The value of a field in a struct expression: an array, of texts where they are string literals.
pub data FieldExpr : Type 0 where
  array : List (Option Bytes) → FieldExpr
  other : FieldExpr

-- A field; `member` is none where it is a number.
pub record FieldValue : Type 0 where
  pub member : Option Bytes
  pub expr : FieldExpr

pub record ExprStruct : Type 0 where
  pub path : SynPath
  pub attrs : List Meta
  pub fields : List FieldValue

-- An element of the item's array.
pub data Expr : Type 0 where
  path : SynPath → List Meta → Expr
  struct : ExprStruct → Expr
  assign : Expr → Expr → Expr
  other : Expr

-- The value of the item.
pub data ItemExpr : Type 0 where
  path : SynPath → ItemExpr
  array : List Expr → ItemExpr
  other : ItemExpr

-- `GenDesc::new`.
abbrev pub new : MethodDef → GenDesc
new def = record { variant_ident = none; no_default_route = false; attrs = []; def = def }

-- What emits compile errors.
abbrev pub Emits : Type 0 → Type 0
Emits A = A × List CompileError

abbrev pub set_routes : GenDesc → List Bytes → GenDesc
set_routes desc routes = record desc { def = record desc.def { routes = routes } }

-- The loop over the elements of `routes`, with `expr_into_lit_str`.
unfoldable pub push_routes : GenDesc → List (Option Bytes) → Emits GenDesc
push_routes desc [] = (desc, [])
push_routes desc (none ∷ elems) =
    let (desc, errors) = push_routes desc elems in
    (desc, expected_string_literal ∷ failed_to_parse ∷ errors)
push_routes desc (some lit ∷ elems) =
    push_routes (set_routes desc (desc.def.routes ++ (lit ∷ []))) elems

abbrev pub setup_routes : GenDesc → FieldExpr → Emits GenDesc
setup_routes desc (FieldExpr.array elems) = push_routes desc elems
setup_routes desc FieldExpr.other = (desc, failed_to_parse ∷ [])

-- One field.
unfoldable pub setup_member : GenDesc → Option Bytes → FieldExpr → Emits GenDesc
setup_member desc none expr = (desc, failed_to_parse ∷ [])
setup_member desc (some mem) expr =
    if same_text mem (codes "no_default_route")
    then (record desc { no_default_route = true }, [])
    else if same_text mem (codes "routes")
    then setup_routes desc expr
    else (desc, unknown_field ∷ [])

abbrev pub setup_field : GenDesc → FieldValue → Emits GenDesc
setup_field desc field = setup_member desc field.member field.expr

unfoldable pub setup_fields : GenDesc → List FieldValue → Emits GenDesc
setup_fields desc [] = (desc, [])
setup_fields desc (field ∷ fields) =
    let (desc, errors) = setup_field desc field in
    let (desc, more) = setup_fields desc fields in (desc, errors ++ more)

-- The last step of `setup_by_struct_expr`.
abbrev pub clear_routes : GenDesc → GenDesc
clear_routes desc = if desc.no_default_route then set_routes desc [] else desc

unfoldable pub setup_by_struct_expr : GenDesc → ExprStruct → Bool → Emits GenDesc
setup_by_struct_expr desc expr no_default_route =
    let (desc, errors) =
      setup_fields
        (record desc { variant_ident = get_ident expr.path; no_default_route = no_default_route })
        expr.fields in
    (clear_routes desc, errors)

-- `DataModel::find_method` and `find_method_by_path`.
unfoldable pub find_method : List MethodDef → Bytes → Option MethodDef
find_method [] ident = none
find_method (def ∷ defs) ident =
    if same_text def.method_ident ident then some def else find_method defs ident

abbrev pub find_method_by_path : List MethodDef → SynPath → Option MethodDef
find_method_by_path defs p = elim (path_as_mono_seg p) [
  | none ↦ none
  | some ident ↦ find_method defs ident
]

-- What an element gives: a target or none, and the errors.
abbrev pub Target : Type 0
Target = Emits (Option GenDesc)

abbrev pub target_of : Emits GenDesc → Target
target_of (desc, errors) = (some desc, errors)

-- The right side of `method = ..`. `get_ident().unwrap()` panics on a longer path.
unfoldable pub setup_by_right : GenDesc → Expr → Bool → Outcome Target
setup_by_right desc (Expr.struct s) global =
    returns (target_of (setup_by_struct_expr desc s global))
setup_by_right desc (Expr.path p attrs) global = unwrap (get_ident p) >>= λ ident.
    returns (some (record desc { variant_ident = some ident }), [])
setup_by_right desc _ global = returns (some desc, expected_alias ∷ [])

-- A target for a known method, set up further.
abbrev pub known : Option MethodDef → List Meta → (GenDesc → Outcome Target) → Outcome Target
known none attrs setup = returns (none, unknown_method ∷ [])
known (some def) attrs setup = setup (record (new def) { attrs = attrs })

-- An element of the array.
unfoldable pub element_target : List MethodDef → Bool → Expr → Outcome Target
element_target defs global (Expr.path p attrs) =
    known (find_method_by_path defs p) attrs (λ desc. returns (some desc, []))
element_target defs global (Expr.assign (Expr.path p attrs) right) =
    known (find_method_by_path defs p) attrs (λ desc. setup_by_right desc right global)
element_target defs global (Expr.assign _ right) = returns (none, expected_path ∷ [])
element_target defs global (Expr.struct s) =
    known (find_method_by_path defs s.path) s.attrs
      (λ desc. returns (target_of (setup_by_struct_expr desc s global)))
element_target defs global _ = returns (none, expected_declaration ∷ [])

abbrev pub push_target : Option GenDesc → List GenDesc → List GenDesc
push_target none targets = targets
push_target (some desc) targets = desc ∷ targets

unfoldable pub element_targets : List MethodDef → Bool → List Expr → Outcome (Emits (List GenDesc))
element_targets defs global [] = returns ([], [])
element_targets defs global (elem ∷ elems) = do
  (target, errors) ← element_target defs global elem
  (targets, more) ← element_targets defs global elems
  returns (push_target target targets, errors ++ more)

-- `match *item.expr`; `pascal` stands for convert_case.
unfoldable pub generate_targets :
    (Bytes → Bytes) → List MethodDef → Bool → ItemExpr → Outcome (Emits (List GenDesc))
generate_targets pascal defs global (ItemExpr.path p) =
    if is_ident p (codes "ALL")
    then returns (map new defs, [])
    else if is_ident p (codes "ALL_PASCAL_CASE")
    then returns
        (map (λ def. record (new def) { variant_ident = some (pascal def.method_ident) }) defs, [])
    else returns ([], expected_all ∷ [])
generate_targets pascal defs global (ItemExpr.array elems) = element_targets defs global elems
generate_targets pascal defs global ItemExpr.other = returns ([], expected_all ∷ [])

-- What the attributes of the item ask for, and those that stay.
pub record Flags : Type 0 where
  pub no_default_route : Bool
  pub install : Bool
  pub direct : Bool
  pub rest : List Meta

unfoldable pub read_attrs : List Meta → Flags
read_attrs [] = record { no_default_route = false; install = false; direct = false; rest = [] }
read_attrs (Meta.other m ∷ attrs) =
    let flags = read_attrs attrs in record flags { rest = Meta.other m ∷ flags.rest }
read_attrs (Meta.path p ∷ attrs) =
    let flags = read_attrs attrs in
    if is_ident p (codes "no_default_route")
    then record flags { no_default_route = true }
    else if is_ident p (codes "install")
    then record flags { install = true }
    else if is_ident p (codes "direct")
    then record flags { direct = true }
    else record flags { rest = Meta.path p ∷ flags.rest }
