-- ===== src/Macros/GenRoute/Routes.antt =====
-- Which target a route leads to, where the check finds no duplicate.
use rpc_it_rs.Base.{
  ℕ, zero, suc, ◌+◌, ◌≡◌, refl, sym, subst, ap, ◌∙◌, ◌↔◌, ◌⊎◌, inl, inr, Bool, true, Option, none,
  some, List, [], ◌∷◌, ◌++◌, get_elem?, if◌then◌else◌, Bool-cases, arith,
}
use rpc_it_rs.Base.Text.{same_text, same_text-eq}
use rpc_it_rs.Defs.{Bytes}
use rpc_it_rs.Router.{PathMap, get}
use rpc_it_rs.Macros.GenRoute.{GenDesc}
use rpc_it_rs.Macros.GenRoute.Generated.{
  route_strs, listed, match_from, duplicates, check_routes, check_targets,
}

-- A list of errors that is empty has empty parts.
pub append_nil : {A : Type 0} (xs ys : List A) → xs ++ ys ≡ [] → (xs ≡ []) × (ys ≡ [])
append_nil [] ys e = (refl, e)
append_nil (x ∷ xs) ys e = cc e

pub duplicates_none :
    (route : Bytes) (index : ℕ) (prev : Option ℕ) → duplicates route index prev ≡ [] → prev ≡ none
duplicates_none route index none e = refl
duplicates_none route index (some p) e = cc e

-- What the routes of a target leave in the map.
check_routes-get :
    (index : ℕ) (routes : List Bytes) (m : PathMap) (r : Bytes)
    → (check_routes index routes m).1 ≡ []
    → (get (check_routes index routes m).0 r ≡ (if listed r routes then some index else get m r))
      × (listed r routes ≡ true → get m r ≡ none)
unfolding check_routes
check_routes-get index [] m r e = (refl, λ f. cc f)
check_routes-get index (route ∷ routes) m r e =
    let (first, rest) =
      append_nil (duplicates route index (get m route))
        (check_routes index routes ((route, index) ∷ m)).1 e in
    let fresh = duplicates_none route index (get m route) first in
    let (found, new) = check_routes-get index routes ((route, index) ∷ m) r rest in
    elim (Bool-cases (same_text route r)) [
      | inl same ↦
          let eq = same_text-eq route r same in (ground (arith, same, found), λ f. cc (eq, fresh))
      | inr other ↦ (ground (arith, other, found), λ f. ground (arith, other, new, f))
    ]

-- What a route leads to before and after the check of more targets.
abbrev pub Leads : Option ℕ → Option ℕ → Option ℕ → Type 0
Leads before after found =
    ((found ≡ none) × (after ≡ before))
    ⊎ ((index : ℕ) × (found ≡ some index) × (after ≡ some index) × (before ≡ none))

pub check_targets-Leads :
    (global : Bool) (index : ℕ) (targets : List GenDesc) (m : PathMap) (r : Bytes)
    → (check_targets global index targets m).1 ≡ []
    → Leads
        (get m r)
        (get (check_targets global index targets m).0 r)
        (match_from global index targets r)
unfolding check_targets match_from
check_targets-Leads global index [] m r e = inl (refl, refl)
check_targets-Leads global index (desc ∷ descs) m r e =
    let routes = route_strs global desc in
    let (mine, later) =
      append_nil (check_routes index routes m).1
        (check_targets global (suc index) descs (check_routes index routes m).0).1 e in
    let (kept, new) = check_routes-get index routes m r mine in
    let leads =
      check_targets-Leads global (suc index) descs (check_routes index routes m).0 r later in
    elim (Bool-cases (listed r routes)) [
      | inl here ↦
          let before : get (check_routes index routes m).0 r ≡ some index = rw here at kept in
          elim leads [
            | inl (none_later, same) ↦ inr (index, rw (here, match_from), same ∙ before, new here)
            | inr (i, found, after, fresh) ↦ cc (before, fresh)
          ]
      | inr elsewhere ↦
          let before : get (check_routes index routes m).0 r ≡ get m r = rw elsewhere at kept in
          elim leads [
            | inl (none_later, same) ↦ inl (rw (elsewhere, match_from) none_later, same ∙ before)
            | inr (i, found, after, fresh) ↦
                inr (i, rw (elsewhere, match_from) found, after, sym before ∙ fresh)
          ]
    ]

-- Only the first target that lists a route can be matched, so nothing before it lists the route.
match_from-place :
    (global : Bool) (index : ℕ) (targets : List GenDesc) (place : ℕ) (desc : GenDesc) (r : Bytes)
    (m : PathMap)
    → (check_targets global index targets m).1 ≡ []
    → get_elem? targets place ≡ some desc
    → listed r (route_strs global desc) ≡ true
    → match_from global index targets r ≡ some (index + place)
unfolding check_targets match_from
match_from-place global index [] place desc r m e at here = cc at
match_from-place global index (d ∷ ds) zero desc r m e at here =
    let same : d ≡ desc = cc at in
    let first : listed r (route_strs global d) ≡ true =
      subst (λ (x : GenDesc). listed r (route_strs global x) ≡ true) (sym same) here in
    rw (first, match_from) (ap some (omega arith))
match_from-place global index (d ∷ ds) (suc place) desc r m e at here =
    let routes = route_strs global d in
    let (mine, later) =
      append_nil (check_routes index routes m).1
        (check_targets global (suc index) ds (check_routes index routes m).0).1 e in
    let (kept, new) = check_routes-get index routes m r mine in
    let rest =
      match_from-place global (suc index) ds place desc r (check_routes index routes m).0 later at
        here in
    let leads = check_targets-Leads global (suc index) ds (check_routes index routes m).0 r later in
    elim (Bool-cases (listed r routes)) [
      | inl first ↦
          let before : get (check_routes index routes m).0 r ≡ some index = rw first at kept in
          elim leads [
            | inl (none_later, same) ↦ cc (none_later, rest)
            | inr (i, found, after, fresh) ↦ cc (before, fresh)
          ]
      | inr elsewhere ↦ rw (elsewhere, match_from) (rest ∙ ap some (omega arith))
    ]

-- A target that is matched lists the route.
pub match_from-some :
    (global : Bool) (index : ℕ) (targets : List GenDesc) (r : Bytes) (i : ℕ)
    → match_from global index targets r ≡ some i
    → (place : ℕ) × (desc : GenDesc) × (i ≡ index + place)
      × (get_elem? targets place ≡ some desc)
      × (listed r (route_strs global desc) ≡ true)
unfolding match_from
match_from-some global index [] r i e = cc e
match_from-some global index (d ∷ ds) r i e = elim (Bool-cases (listed r (route_strs global d))) [
  | inl first ↦
      let same : index ≡ i = cc (rw first at e) in (0, d, omega (arith, same), refl, first)
  | inr elsewhere ↦
      let (place, desc, at, found, here) =
        match_from-some global (suc index) ds r i (rw elsewhere at e) in
      (suc place, desc, omega (arith, at), found, here)
]

-- Where no duplicated route is reported, a route is matched to exactly the target that has it.
pub match_from_iff :
    (global : Bool) (targets : List GenDesc) (place : ℕ) (route : Bytes)
    → (check_targets global 0 targets []).1 ≡ []
    → (match_from global 0 targets route ≡ some place) ↔ (
        (desc : GenDesc) × (get_elem? targets place ≡ some desc)
        × (listed route (route_strs global desc) ≡ true))
match_from_iff global targets place route e = (
  λ found.
      let (p, desc, same, at, here) = match_from-some global 0 targets route place found in
      let q : p ≡ place = omega (arith, same) in
      (desc, subst (λ (n : ℕ). get_elem? targets n ≡ some desc) q at, here),
  λ (desc, at, here).
      match_from-place global 0 targets place desc route [] e at here ∙ ap some (omega arith),
)
