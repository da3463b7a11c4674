-- ===== src/Services/Addressed.antt =====
-- The methods of services/*.go: each sends what its name and the type of its id promise, and no two do
-- the same.
use mathlib.Core.Path.{subst}
use go_ha.Prelude.{
  ◌<◌, ◌≢◌, arith, ℕ, suc, zero, String, str_eq, eq_refl, ◌≡◌, refl, ap, ◌∙◌, Bool, true, false,
  not, ◌&&◌, Option, none, some, List, [], ◌∷◌, ◌++◌, map, get_elem?, if◌then◌else◌,
}
use go_ha.Prelude.Dict.{lookup}
use go_ha.Json.{Any, Data}
use go_ha.Types.{SetTemperatureRequest}
use go_ha.Services.{Request, call_service, fire_event, ServiceTarget, new_base_service_request}
use go_ha.Services.EntityId.{EntityId, domain_id_types}
use go_ha.Services.Typed.{typed_methods, other_methods}

abbrev request_type_of : Request → String
request_type_of (call_service r) = r.request_type
request_type_of (fire_event r) = r.type

abbrev target_of : Request → Option ServiceTarget
target_of (call_service r) = r.target
target_of (fire_event r) = none

abbrev name_of : Request → String × String
name_of (call_service r) = (r.domain, r.service)
name_of (fire_event r) = ("", "")

-- The entity, unless its id is empty.
abbrev aimed_at : EntityId → Option ServiceTarget
aimed_at e = if str_eq e "" then none else some (record { entity_id = e })

abbrev data_of : Request → Data
data_of (call_service r) = r.service_data
data_of (fire_event r) = r.event_data

-- The service data, where the method takes it.
abbrev data_where : Option Data → Request → Option Data
data_where none r = none
data_where (some d) r = some (data_of r)

abbrev Facts : Type 0
Facts = String × Option ServiceTarget × Option String × Option Data

abbrev facts : Option String × Option Data × Request → Facts
facts (id_type, d, r) =
    (request_type_of r, target_of r, lookup (name_of r).0 domain_id_types, data_where d r)

abbrev promised : EntityId → Option String × Option Data × Request → Facts
promised e (id_type, d, r) = ("call_service", aimed_at e, id_type, d)

-- A service call on the entity, in the domain that `DomainIDTypes` maps to the type of the method's id,
-- or in none of them where that is the type of any entity, with the optional data where it takes them.
abbrev pub Addressed : EntityId → Option String × Option Data × Request → Type 0
Addressed e m = facts m ≡ promised e m

abbrev head_or : {A : Type 0} → A → List A → A
head_or x [] = x
head_or x (y ∷ ys) = y

abbrev tail : {A : Type 0} → List A → List A
tail [] = []
tail (y ∷ ys) = ys

abbrev same : String × String → String × String → Bool
same (a, b) (c, d) = str_eq a c && str_eq b d

abbrev fresh : String × String → List (String × String) → Bool
fresh p [] = true
fresh p (q ∷ rest) = not (same p q) && fresh p rest

abbrev distinct : List (String × String) → Bool
distinct [] = true
distinct (p ∷ rest) = fresh p rest && distinct rest

left : (a b : Bool) → a && b ≡ true → a ≡ true
left true b h = refl
left false b h = cc

right : (a b : Bool) → a && b ≡ true → b ≡ true
right true b h = h
right false b h = cc

clash : (a : Bool) → a ≡ true → not a ≡ true → ⊥
clash true h k = cc
clash false h k = cc

same_refl : (p : String × String) → same p p ≡ true
same_refl (a, b) = ap (λ x. x && str_eq b b) (eq_refl a) ∙ eq_refl b

abbrev value_or : {A : Type 0} → A → Option A → A
value_or x none = x
value_or x (some y) = y

fresh-get :
    (p : String × String) (xs : List (String × String)) (i : ℕ)
    → fresh p xs ≡ true
    → get_elem? xs i ≡ some p
    → ⊥
fresh-get p [] i h e = cc
fresh-get p (q ∷ rest) zero h e =
    let here : q ≡ p = ap (value_or q) e in
    let alike : same p q ≡ true = ap (same p) here ∙ same_refl p in
    absurd (clash (same p q) alike (left (not (same p q)) (fresh p rest) h))
fresh-get p (q ∷ rest) (suc i) h e = fresh-get p rest i (right (not (same p q)) (fresh p rest) h) e

distinct-get :
    (xs : List (String × String)) (i j : ℕ) (p : String × String)
    → distinct xs ≡ true
    → get_elem? xs i ≡ some p
    → get_elem? xs j ≡ some p
    → i ≡ j
distinct-get [] i j p h e f = cc
distinct-get (q ∷ rest) zero zero p h e f = refl
distinct-get (q ∷ rest) zero (suc j) p h e f = absurd (
    fresh-get p rest j
      (subst (λ r. fresh r rest ≡ true) (ap (value_or q) e) (left (fresh q rest) (distinct rest) h))
      f)
distinct-get (q ∷ rest) (suc i) zero p h e f = absurd (
    fresh-get p rest i
      (subst (λ r. fresh r rest ≡ true) (ap (value_or q) f) (left (fresh q rest) (distinct rest) h))
      e)
distinct-get (q ∷ rest) (suc i) (suc j) p h e f =
    ap suc (distinct-get rest i j p (right (fresh q rest) (distinct rest) h) e f)

module _ (sprint : ℕ → String) (e : EntityId) (s : String) (n : ℕ) (x : Any)
    (t : SetTemperatureRequest) (v : List Data) (b : Bool) where
  -- The domain and the service of each method.
  abbrev pub names : List (String × String)
  names =
      map (λ m. name_of m.2) (typed_methods sprint e s n x t v)
      ++ map name_of (other_methods sprint e s n x t v b)

  -- Whatever the arguments: two methods at different places of the list call different services, or the
  -- same service of different domains.
  pub names-differ :
      (i j : ℕ) (p q : String × String)
      → i < j
      → get_elem? names i ≡ some p
      → get_elem? names j ≡ some q
      → p ≢ q
  unfolding new_base_service_request
  names-differ i j p q l e f h =
      let same_place : i ≡ j = distinct-get names i j q refl (e ∙ ap some h) f in
      absurd (omega (arith, l, same_place))
