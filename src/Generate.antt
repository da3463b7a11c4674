-- ===== src/Generate.antt =====
-- cmd/generate/main.go: the names of the generated fields, and the loop of `render` that gathers the
-- entities of each domain. `strings.ToUpper` is an argument. Entity ids are ASCII, so that a byte is a
-- character. The sorting, the template and go/format come after this.
pub mod Stored
pub mod Chosen
pub mod Fields
pub mod Names
mod Tests
use Prim.Native.Char.{Char, code}
use Prim.Native.String.{[] as end, ◌∷◌ as ◌►◌, ◌++◌ as ◌<>◌}
use go_ha.Prelude.{
  ℕ, String, str_eq, Bool, true, false, not, ◌&&◌, Option, none, some, List, [], ◌∷◌, ◌++◌, leb,
  ◌==◌, contains, is_empty, if◌then◌else◌,
}
use go_ha.Prelude.Dict.{lookup, insert}
use go_ha.Services.EntityId.{domain_id_types}

-- The parts before and after the first separator: `strings.Split`, which gives at least one part.
abbrev pub put_first : Char → List String → List String
put_first c [] = []
put_first c (part ∷ rest) = (c ► part) ∷ rest

unfoldable pub split : ℕ → String → List String
split sep end = end ∷ []
split sep (c ► s) = let rest = split sep s in if code c == sep then end ∷ rest else put_first c rest

-- A part of a name with its first letter in upper case; an empty part is dropped.
abbrev pub capital : (String → String) → String → String
capital to_upper end = end
capital to_upper (c ► s) = to_upper (c ► end) <> s

abbrev pub capitals : (String → String) → List String → String
capitals to_upper [] = end
capitals to_upper (part ∷ rest) = capital to_upper part <> capitals to_upper rest

-- The prefix for a digit; a first part that is empty makes `parts[0][0]` panic.
abbrev pub digit_prefix : List String → Option String
digit_prefix [] = none
digit_prefix (part ∷ rest) = first_of part
  where
    first_of : String → Option String
    first_of end = none
    first_of (c ► s) = some (if leb 48 (code c) && leb (code c) 57 then "_" else end)

abbrev pub prefixed : Option String → String → Option String
prefixed none s = none
prefixed (some p) s = some (p <> s)

-- `toCamelCase`, or nothing where it panics.
unfoldable pub to_camel_case : (String → String) → String → Option String
to_camel_case to_upper s =
    if str_eq s ""
    then some ""
    else (let parts = split 95 s in prefixed (digit_prefix parts) (capitals to_upper parts))

-- `toFieldName`, by the parts of the id.
abbrev pub field_of : (String → String) → List String → Option String
field_of to_upper [] = some ""
field_of to_upper (a ∷ []) = some ""
field_of to_upper (a ∷ b ∷ []) = to_camel_case to_upper b
field_of to_upper (a ∷ b ∷ c ∷ rest) = some ""

unfoldable pub to_field_name : (String → String) → String → Option String
to_field_name to_upper id = field_of to_upper (split 46 id)

-- `includes`.
unfoldable pub includes : String → List String → List String → Bool
includes domain include exclude =
    if not (is_empty include) then contains include domain else not (contains exclude domain)

pub record Entity : Type 0 where
  pub field_name : String
  pub entity_id : String

pub record Domain : Type 0 where
  pub name : String
  pub id_type : String
  pub entities : List Entity

-- What `render` reads of a `ha.EntityState`.
pub record Source : Type 0 where
  pub entity_id : String
  pub state : String

-- `domainMap` and `seen`.
pub record Gathered : Type 0 where
  pub domains : List (String × Domain)
  pub seen : List (String × List (String × String))

pub data RenderError : Type 0 where
  no_field : String → RenderError
  clash : String → String → RenderError

pub data Outcome : Type 0 where
  ok : Gathered → Outcome
  failure : RenderError → Outcome
  panics : Outcome

-- A missing inner map is nil, and reads as empty.
abbrev pub or_empty : Option (List (String × String)) → List (String × String)
or_empty none = []
or_empty (some m) = m

abbrev or_any : Option String → String
or_any none = "EntityID"
or_any (some id_type) = id_type

-- The entity is appended to its domain, which is given.
unfoldable pub store : String → String → String → Domain → Gathered → Gathered
store domain field_name id d g = record {
  domains =
      insert domain
        (record d {
          entities = d.entities ++ record { field_name = field_name; entity_id = id } ∷ [];
        })
        g.domains;
  seen = insert domain (insert field_name id (or_empty (lookup domain g.seen))) g.seen;
}

-- The domain's name, where the domain is new; `domainName`.
abbrev pub open_domain : String → String → String → Option String → Gathered → Outcome
open_domain domain field_name id none g = panics
open_domain domain field_name id (some name) g = ok (
    store domain field_name id
      (record { name = name; id_type = or_any (lookup domain domain_id_types); entities = [] }) g)

abbrev pub place : (String → String) → String → String → String → Option Domain → Gathered → Outcome
place to_upper domain field_name id none g =
    open_domain domain field_name id (to_camel_case to_upper domain) g
place to_upper domain field_name id (some d) g = ok (store domain field_name id d g)

abbrev pub unless_seen :
    (String → String) → String → String → String → Option String → Gathered → Outcome
unless_seen to_upper domain field_name id (some prior) g = failure (clash prior id)
unless_seen to_upper domain field_name id none g =
    place to_upper domain field_name id (lookup domain g.domains) g

abbrev pub with_field : (String → String) → String → String → Option String → Gathered → Outcome
with_field to_upper domain id none g = panics
with_field to_upper domain id (some field_name) g =
    if str_eq field_name ""
    then failure (no_field id)
    else unless_seen to_upper domain field_name id
        (lookup field_name (or_empty (lookup domain g.seen))) g

-- The domain that an entity is gathered under, if it is.
abbrev pub domain_of : List String → List String → List String → Option String
domain_of include exclude [] = none
domain_of include exclude (a ∷ []) = none
domain_of include exclude (a ∷ b ∷ []) = if includes a include exclude then some a else none
domain_of include exclude (a ∷ b ∷ c ∷ rest) = none

unfoldable pub admitted : List String → List String → Source → Option String
admitted include exclude e =
    if str_eq e.state "unavailable" then none else domain_of include exclude (split 46 e.entity_id)

abbrev pub visit : (String → String) → Source → Option String → Gathered → Outcome
visit to_upper e none g = ok g
visit to_upper e (some domain) g =
    with_field to_upper domain e.entity_id (to_field_name to_upper e.entity_id) g

-- The loop of `render`.
unfoldable pub gather :
    (String → String) → List String → List String → List Source → Gathered → Outcome
gather to_upper include exclude [] g = ok g
gather to_upper include exclude (e ∷ rest) g =
    elim (visit to_upper e (admitted include exclude e) g) [
      | ok h ↦ gather to_upper include exclude rest h
      | failure error ↦ failure error
      | panics ↦ panics
    ]
