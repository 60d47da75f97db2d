-- ===== src/Macros/GenRoute/Setup.antt =====
-- The routes of a target that is set up by a struct expression.
use rpc_it_rs.Base.{
  ◌≡◌, refl, sym, ap, ◌∙◌, Bool, true, false, ◌||◌, Option, none, some, List, [], ◌∷◌, ◌++◌,
  if◌then◌else◌, Bool-cases, inl, inr,
}
use mathlib.Core.List.{append_assoc, append-nil}
use rpc_it_rs.Base.Text.{codes, same_text, same_text-eq}
use rpc_it_rs.Defs.{Bytes}
use rpc_it_rs.Macros.GenRoute.{
  GenDesc, FieldExpr, FieldValue, ExprStruct, get_ident, set_routes, push_routes, setup_routes,
  setup_member, setup_field, setup_fields, clear_routes, setup_by_struct_expr,
}

-- The string literals of an array.
abbrev pub literals : List (Option Bytes) → List Bytes
literals [] = []
literals (none ∷ elems) = literals elems
literals (some lit ∷ elems) = lit ∷ literals elems

abbrev pub array_literals : FieldExpr → List Bytes
array_literals (FieldExpr.array elems) = literals elems
array_literals FieldExpr.other = []

-- Is it the field with this name?
abbrev pub is_field : Bytes → Option Bytes → Bool
is_field name none = false
is_field name (some mem) = same_text mem name

-- Is there a field `no_default_route`?
abbrev pub has_flag : List FieldValue → Bool
has_flag [] = false
has_flag (f ∷ fs) = is_field (codes "no_default_route") f.member || has_flag fs

-- The literals of the fields `routes`.
abbrev pub listed_routes : List FieldValue → List Bytes
listed_routes [] = []
listed_routes (f ∷ fs) =
    let rest = listed_routes fs in
    if is_field (codes "routes") f.member then array_literals f.expr ++ rest else rest

push_routes_lem :
    (desc : GenDesc) (elems : List (Option Bytes))
    → (push_routes desc elems).0 ≡ set_routes desc (desc.def.routes ++ literals elems)
unfolding push_routes
push_routes_lem desc [] = ap (set_routes desc) (sym (append-nil desc.def.routes))
push_routes_lem desc (none ∷ elems) = push_routes_lem desc elems
push_routes_lem desc (some lit ∷ elems) =
    push_routes_lem (set_routes desc (desc.def.routes ++ (lit ∷ []))) elems
    ∙ ap (set_routes desc) (append_assoc desc.def.routes (lit ∷ []) (literals elems))

setup_routes_lem :
    (desc : GenDesc) (e : FieldExpr)
    → (setup_routes desc e).0 ≡ set_routes desc (desc.def.routes ++ array_literals e)
setup_routes_lem desc (FieldExpr.array elems) = push_routes_lem desc elems
setup_routes_lem desc FieldExpr.other = ap (set_routes desc) (sym (append-nil desc.def.routes))

-- A target with a flag and routes.
abbrev IsSetUp : GenDesc → Bool → List Bytes → Type 0
IsSetUp desc flag routes = (desc.no_default_route ≡ flag) × (desc.def.routes ≡ routes)

not_both :
    (mem : Bytes)
    → same_text mem (codes "no_default_route") ≡ true
    → same_text mem (codes "routes") ≡ false
not_both mem e = rw (same_text-eq mem (codes "no_default_route") e) refl

or_true : (b : Bool) → (b || true) ≡ true
or_true true = refl
or_true false = refl

or_false : (b : Bool) → (b || false) ≡ b
or_false true = refl
or_false false = refl

setup_member_lem :
    (desc : GenDesc) (member : Option Bytes) (expr : FieldExpr)
    → IsSetUp
        (setup_member desc member expr).0
        (desc.no_default_route || is_field (codes "no_default_route") member)
        (desc.def.routes ++ (if is_field (codes "routes") member then array_literals expr else []))
unfolding setup_member
setup_member_lem desc none expr =
    (sym (or_false desc.no_default_route), sym (append-nil desc.def.routes))
setup_member_lem desc (some mem) expr =
    elim (Bool-cases (same_text mem (codes "no_default_route"))) [
      | inl flag ↦
          let other = not_both mem flag in
          (
            rw (flag, setup_member) (sym (or_true desc.no_default_route)),
            rw (flag, other, setup_member) (sym (append-nil desc.def.routes)),
          )
      | inr plain ↦ elim (Bool-cases (same_text mem (codes "routes"))) [
        | inl routes ↦
            let same = setup_routes_lem desc expr in
            (
              rw (plain, routes, setup_member)
                  (ap (λ (d : GenDesc). d.no_default_route) same
                    ∙ sym (or_false desc.no_default_route)),
              rw (plain, routes, setup_member) (ap (λ (d : GenDesc). d.def.routes) same),
            )
        | inr unknown ↦ (
          rw (plain, unknown, setup_member) (sym (or_false desc.no_default_route)),
          rw (plain, unknown, setup_member) (sym (append-nil desc.def.routes)),
        )
      ]
    ]

or_assoc : (a b c : Bool) → ((a || b) || c) ≡ (a || (b || c))
or_assoc true b c = refl
or_assoc false b c = refl

listed_routes-cons :
    (f : FieldValue) (fs : List FieldValue)
    → (if is_field (codes "routes") f.member then array_literals f.expr else []) ++ listed_routes fs
      ≡ listed_routes (f ∷ fs)
listed_routes-cons f fs = elim (Bool-cases (is_field (codes "routes") f.member)) [
  | inl e ↦ rw e
  | inr e ↦ rw e
]

setup_fields_lem :
    (desc : GenDesc) (fs : List FieldValue)
    → IsSetUp
        (setup_fields desc fs).0
        (desc.no_default_route || has_flag fs)
        (desc.def.routes ++ listed_routes fs)
unfolding setup_fields
setup_fields_lem desc [] = (sym (or_false desc.no_default_route), sym (append-nil desc.def.routes))
setup_fields_lem desc (f ∷ fs) =
    let after = (setup_field desc f).0 in
    let (flag, routes) = setup_member_lem desc f.member f.expr in
    let (flags, rest) = setup_fields_lem after fs in
    (
      flags
          ∙ ap (λ (b : Bool). b || has_flag fs) flag
          ∙ or_assoc desc.no_default_route (is_field (codes "no_default_route") f.member)
              (has_flag fs),
      rest
          ∙ ap (λ (rs : List Bytes). rs ++ listed_routes fs) routes
          ∙ append_assoc desc.def.routes
              (if is_field (codes "routes") f.member then array_literals f.expr else [])
              (listed_routes fs)
          ∙ ap (λ (rs : List Bytes). desc.def.routes ++ rs) (listed_routes-cons f fs),
    )

-- `clear_routes` by the value of the flag.
clear_routes_flag :
    (desc : GenDesc) (flag : Bool)
    → desc.no_default_route ≡ flag
    → clear_routes desc ≡ (if flag then set_routes desc [] else desc)
clear_routes_flag desc flag e = ap (λ (b : Bool). if b then set_routes desc [] else desc) e

clear_routes_lem :
    (desc : GenDesc) (flag : Bool) (routes : List Bytes)
    → IsSetUp desc flag routes
    → IsSetUp (clear_routes desc) flag (if flag then [] else routes)
clear_routes_lem desc true routes (f, r) =
    let same = clear_routes_flag desc true f in
    (ap (λ (d : GenDesc). d.no_default_route) same ∙ f, ap (λ (d : GenDesc). d.def.routes) same)
clear_routes_lem desc false routes (f, r) =
    let same = clear_routes_flag desc false f in
    (ap (λ (d : GenDesc). d.no_default_route) same ∙ f, ap (λ (d : GenDesc). d.def.routes) same ∙ r)

-- A target that is set up by a struct expression has the flag `no_default_route` of the item or of a
-- field, and with the flag no route at all, not those that the expression lists either; without it
-- the method's routes and then the string literals of the fields `routes`.
pub setup_by_struct_expr_routes :
    (desc : GenDesc) (expr : ExprStruct) (global : Bool)
    → ((setup_by_struct_expr desc expr global).0.no_default_route
        ≡ (global || has_flag expr.fields))
      × ((setup_by_struct_expr desc expr global).0.def.routes ≡ (
          if global || has_flag expr.fields
          then []
          else desc.def.routes ++ listed_routes expr.fields))
unfolding setup_by_struct_expr
setup_by_struct_expr_routes desc expr global =
    clear_routes_lem _ (global || has_flag expr.fields) _ (
      setup_fields_lem
        (record desc { variant_ident = get_ident expr.path; no_default_route = global })
        expr.fields)
