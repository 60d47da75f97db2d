-- ===== src/Macros/GenFunc.antt =====
-- macros/src/gen_func.rs, `generate_item_fn` with what it makes of the attributes of a method, and
-- macros/src/lib.rs, its use of `rename_all`. `is_req` stands for what `fn_def_body` finds: a written
-- return type.
pub mod Names
use rpc_it_rs.Base.{
  Bool, true, false, ◌&&◌, ◌||◌, not, Option, none, some, List, [], ◌∷◌, ◌++◌, if◌then◌else◌,
}
use rpc_it_rs.Base.Text.{codes, same_text}
use rpc_it_rs.Defs.{Bytes}
use rpc_it_rs.Macros.GenRoute.{SynPath, is_ident, MethodDef, CompileError}

-- An attribute of a method: a value is none where it is no string literal.
pub data Attr : Type 0 where
  path : SynPath → Attr
  name_value : SynPath → Option Bytes → Attr
  list : SynPath → Attr

pub data AttrError : Type 0 where
  duplicated_name name_not_literal route_not_literal : AttrError

-- What the loop over the attributes has found.
pub record Parsed : Type 0 where
  pub no_recv : Bool
  pub name : Bytes
  pub routes : List Bytes
  pub attrs : List Attr
  pub errors : List AttrError

abbrev pub is_empty : Bytes → Bool
is_empty [] = true
is_empty (c ∷ cs) = false

abbrev pub forward : Parsed → Attr → Parsed
forward p attr = record p { attrs = p.attrs ++ attr ∷ [] }

abbrev pub reject : Parsed → AttrError → Parsed
reject p error = record p { errors = p.errors ++ error ∷ [] }

-- `name = ..`.
abbrev pub set_name : Parsed → Option Bytes → Parsed
set_name p value =
    if not (is_empty p.name)
    then reject p duplicated_name
    else elim value [ none ↦ reject p name_not_literal | some lit ↦ record p { name = lit } ]

-- `route = ..`.
abbrev pub push_route : Parsed → Option Bytes → Parsed
push_route p none = reject p route_not_literal
push_route p (some lit) = record p { routes = p.routes ++ lit ∷ [] }

-- One attribute.
unfoldable pub parse_attr : Parsed → Attr → Parsed
parse_attr p (Attr.path m) =
    if is_ident m (codes "no_recv") then record p { no_recv = true } else forward p (Attr.path m)
parse_attr p (Attr.name_value m value) =
    if is_ident m (codes "doc")
    then forward p (Attr.name_value m value)
    else if is_ident m (codes "name")
    then set_name p value
    else if is_ident m (codes "route")
    then push_route p value
    else forward p (Attr.name_value m value)
parse_attr p (Attr.list m) = forward p (Attr.list m)

unfoldable pub parse_attrs : Parsed → List Attr → Parsed
parse_attrs p [] = p
parse_attrs p (attr ∷ attrs) = parse_attrs (parse_attr p attr) attrs

-- `rename_all` of the service; `to_case` stands for convert_case.
abbrev pub rename : {Case : Type 0} → (Case → Bytes → Bytes) → Option Case → Bytes → Bytes
rename to_case none name = name
rename to_case (some case_) name = to_case case_ name

-- The definition of a method and the attributes, from an empty name.
unfoldable pub parse_method :
    {Case : Type 0} → (Case → Bytes → Bytes) → Option Case → List Attr → Parsed
parse_method to_case rename_all attrs =
    parse_attrs
      (record {
        no_recv = false;
        name = rename to_case rename_all [];
        routes = [];
        attrs = [];
        errors = [];
      })
      attrs

unfoldable pub method_def :
    {Case : Type 0} → (Case → Bytes → Bytes) → Option Case → Bytes → Bool → List Attr → MethodDef
method_def to_case rename_all ident is_req attrs =
    let p = parse_method to_case rename_all attrs in
    record {
      is_req = is_req;
      method_ident = ident;
      name = if is_empty p.name then ident else p.name;
      routes = p.routes;
    }

-- What is left in `handled_methods`.
unfoldable pub generate_item_fn :
    {Case : Type 0}
    → (Case → Bytes → Bytes)
    → Option Case
    → Bytes
    → Bool
    → List Attr
    → List MethodDef
    → List MethodDef
generate_item_fn to_case rename_all ident is_req attrs handled =
    if (parse_method to_case rename_all attrs).no_recv
    then handled
    else handled ++ method_def to_case rename_all ident is_req attrs ∷ []
