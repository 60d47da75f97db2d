-- ===== src/Macros/GenFunc/Names.antt =====
-- The names and routes that methods get.
use rpc_it_rs.Base.{
  ◌≡◌, refl, sym, ap, ◌∙◌, Bool, true, false, ◌||◌, not, Option, none, some, List, [], ◌∷◌, ◌++◌,
  if◌then◌else◌, Bool-cases, if-both, if-split, inl, inr,
}
use mathlib.Core.List.{append_assoc, append-nil}
use rpc_it_rs.Base.Text.{codes, same_text, same_text-eq}
use rpc_it_rs.Defs.{Bytes}
use rpc_it_rs.Macros.GenRoute.{SynPath, get_ident, is_named, is_ident, MethodDef}
use rpc_it_rs.Macros.GenFunc.{
  Attr, Parsed, is_empty, set_name, parse_attr, parse_attrs, rename, parse_method, method_def,
}

-- The texts of the attributes with a name, in their order.
abbrev pub is_value : Bytes → SynPath → Bool
is_value name m = is_ident m name

-- The first text, if it is not empty.
abbrev pub first_of : Bytes → Bytes → Bytes
first_of a b = if is_empty a then b else a

abbrev pub name_in : Attr → Bytes
name_in (Attr.path m) = []
name_in (Attr.list m) = []
name_in (Attr.name_value m none) = []
name_in (Attr.name_value m (some lit)) = if is_value (codes "name") m then lit else []

-- The first name that is given and not empty.
abbrev pub given_name : List Attr → Bytes
given_name [] = []
given_name (attr ∷ attrs) = first_of (name_in attr) (given_name attrs)

abbrev pub route_in : Attr → List Bytes
route_in (Attr.path m) = []
route_in (Attr.list m) = []
route_in (Attr.name_value m none) = []
route_in (Attr.name_value m (some lit)) = if is_value (codes "route") m then lit ∷ [] else []

-- All routes that are given.
abbrev pub given_routes : List Attr → List Bytes
given_routes [] = []
given_routes (attr ∷ attrs) = route_in attr ++ given_routes attrs

-- Is there an attribute `no_recv`?
abbrev pub has_no_recv : List Attr → Bool
has_no_recv [] = false
has_no_recv (Attr.path m ∷ attrs) = is_ident m (codes "no_recv") || has_no_recv attrs
has_no_recv (Attr.list m ∷ attrs) = has_no_recv attrs
has_no_recv (Attr.name_value m value ∷ attrs) = has_no_recv attrs

first_of_nil : (a : Bytes) → first_of a [] ≡ a
first_of_nil [] = refl
first_of_nil (c ∷ cs) = refl

first_of_assoc : (a b c : Bytes) → first_of (first_of a b) c ≡ first_of a (first_of b c)
first_of_assoc [] b c = refl
first_of_assoc (x ∷ a) b c = refl

named_other :
    (o : Option Bytes) (a b : Bytes)
    → is_named o a ≡ true
    → same_text a b ≡ false
    → is_named o b ≡ false
named_other none a b e f = refl
named_other (some ident) a b e f = rw (same_text-eq ident a e) f

first_of-full : (a b : Bytes) → not (is_empty a) ≡ true → a ≡ first_of a b
first_of-full [] b e = cc e
first_of-full (c ∷ cs) b e = refl

first_of-empty : (a b : Bytes) → not (is_empty a) ≡ false → b ≡ first_of a b
first_of-empty [] b e = refl
first_of-empty (c ∷ cs) b e = cc e

-- What an attribute does, by the text that it gives.
abbrev Gives : Parsed → Bytes → List Bytes → Parsed → Type 0
Gives p name routes q = (q.name ≡ first_of p.name name) × (q.routes ≡ p.routes ++ routes)

unchanged : (p : Parsed) → Gives p [] [] p
unchanged p = (sym (first_of_nil p.name), sym (append-nil p.routes))

set_name-Gives : (p : Parsed) (lit : Bytes) → Gives p lit [] (set_name p (some lit))
set_name-Gives p lit =
    if-split (Gives p lit []) (not (is_empty p.name))
      (λ e. (first_of-full p.name lit e, sym (append-nil p.routes)))
      (λ e. (first_of-empty p.name lit e, sym (append-nil p.routes)))

set_name-none : (p : Parsed) → Gives p [] [] (set_name p none)
set_name-none p = if-both (Gives p [] []) (not (is_empty p.name)) (unchanged p) (unchanged p)

name_value-Gives :
    (p : Parsed) (m : SynPath) (value : Option Bytes)
    → Gives p
        (name_in (Attr.name_value m value))
        (route_in (Attr.name_value m value))
        (parse_attr p (Attr.name_value m value))
unfolding parse_attr
name_value-Gives p m none = if-both (Gives p [] []) (is_ident m (codes "doc")) (unchanged p) (
    if-both (Gives p [] []) (is_ident m (codes "name")) (set_name-none p)
      (if-both (Gives p [] []) (is_ident m (codes "route")) (unchanged p) (unchanged p)))
name_value-Gives p m (some lit) = elim (Bool-cases (is_ident m (codes "doc"))) [
  | inl doc ↦
      let n = named_other (get_ident m) (codes "doc") (codes "name") doc refl in
      let r = named_other (get_ident m) (codes "doc") (codes "route") doc refl in
      rw (n, r, doc, parse_attr) (unchanged p)
  | inr plain ↦ elim (Bool-cases (is_ident m (codes "name"))) [
    | inl name ↦
        let r = named_other (get_ident m) (codes "name") (codes "route") name refl in
        rw (r, name, plain, parse_attr) (set_name-Gives p lit)
    | inr unnamed ↦ elim (Bool-cases (is_ident m (codes "route"))) [
      | inl route ↦ rw (route, unnamed, plain, parse_attr) (sym (first_of_nil p.name), refl)
      | inr other ↦ rw (other, unnamed, plain, parse_attr) (unchanged p)
    ]
  ]
]

parse_attr-Gives :
    (p : Parsed) (attr : Attr) → Gives p (name_in attr) (route_in attr) (parse_attr p attr)
unfolding parse_attr
parse_attr-Gives p (Attr.path m) =
    if-both (Gives p [] []) (is_ident m (codes "no_recv")) (unchanged p) (unchanged p)
parse_attr-Gives p (Attr.name_value m value) = name_value-Gives p m value
parse_attr-Gives p (Attr.list m) = unchanged p

parse_attrs-Gives :
    (p : Parsed) (attrs : List Attr)
    → Gives p (given_name attrs) (given_routes attrs) (parse_attrs p attrs)
unfolding parse_attrs
parse_attrs-Gives p [] = unchanged p
parse_attrs-Gives p (attr ∷ attrs) =
    let (n, r) = parse_attr-Gives p attr in
    let (ns, rs) = parse_attrs-Gives (parse_attr p attr) attrs in
    (
      ns
          ∙ ap (λ (a : Bytes). first_of a (given_name attrs)) n
          ∙ first_of_assoc p.name (name_in attr) (given_name attrs),
      rs
          ∙ ap (λ (a : List Bytes). a ++ given_routes attrs) r
          ∙ append_assoc p.routes (route_in attr) (given_routes attrs),
    )

rename_empty :
    {Case : Type 0} (to_case : Case → Bytes → Bytes) (rename_all : Option Case)
    → ((c : Case) → to_case c [] ≡ [])
    → rename to_case rename_all [] ≡ []
rename_empty to_case none empty = refl
rename_empty to_case (some c) empty = empty c

-- The definition of a method has the first name that an attribute gives and that is not empty, else
-- the method's identifier, and all routes that attributes give, in their order. `rename_all` has no
-- effect on it, where the case conversion leaves an empty text empty.
pub method_def_names :
    {Case : Type 0} (to_case : Case → Bytes → Bytes) (rename_all : Option Case) (ident : Bytes)
    (is_req : Bool) (attrs : List Attr)
    → ((c : Case) → to_case c [] ≡ [])
    → method_def to_case rename_all ident is_req attrs ≡ record {
      is_req = is_req;
      method_ident = ident;
      name = first_of (given_name attrs) ident;
      routes = given_routes attrs;
    }
unfolding method_def parse_method
method_def_names to_case rename_all ident is_req attrs empty =
    let p = parse_method to_case rename_all attrs in
    let (n, r) = parse_attrs-Gives _ attrs in
    let name : p.name ≡ given_name attrs =
      n
      ∙ ap (λ (a : Bytes). first_of a (given_name attrs)) (rename_empty to_case rename_all empty) in
    let named : Bytes → List Bytes → MethodDef = λ a rs. record {
      is_req = is_req;
      method_ident = ident;
      name = first_of a ident;
      routes = rs;
    } in
    ap (λ (a : Bytes). named a p.routes) name ∙ ap (named (given_name attrs)) r
