-- ===== src/Core/Cache.antt =====
-- core/cache.go: the entity cache. Each method holds the mutex for its whole body, so each is one
-- step. `touched` is a set; it is nil outside a window, here empty.
pub mod Window
pub mod Order
mod Tests
use go_ha.Prelude.{
  ℕ, String, str_eq, ◌≡◌, refl, Bool, true, false, not, ◌&&◌, ◌||◌, Option, none, some, List, [],
  ◌∷◌, map, ltb, ◌==◌, if◌then◌else◌, contains,
}
use go_ha.Prelude.Dict.{lookup, insert, erase}
use go_ha.Core.Event.{EntityState}

pub record EntityCache : Type 0 where
  pub entities : List (String × EntityState)
  pub touched : List String
  pub pending : Bool
  pub seeded : Bool

abbrev pub new_entity_cache : EntityCache
new_entity_cache = record { entities = []; touched = []; pending = false; seeded = false }

unfoldable pub begin_seed : EntityCache → EntityCache
begin_seed c = record c { touched = []; pending = true }

-- `next[es.EntityID] = es` for each entry of the snapshot.
pub install : List EntityState → List (String × EntityState) → List (String × EntityState)
install [] next = next
install (es ∷ list) next = install list (insert es.entity_id es next)

-- A touched entity is kept as the stream left it, present or absent.
pub keep_one :
    String → Option EntityState → List (String × EntityState) → List (String × EntityState)
keep_one id none next = erase id next
keep_one id (some es) next = insert id es next

-- The loop over the touched names.
pub keep_touched :
    List (String × EntityState)
    → List String
    → List (String × EntityState)
    → List (String × EntityState)
unfolding keep_one
keep_touched entities [] next = next
keep_touched entities (id ∷ ids) next =
    keep_touched entities ids (keep_one id (lookup id entities) next)

unfoldable pub finish_seed : List EntityState → EntityCache → EntityCache
unfolding install keep_touched
finish_seed list c = record {
  entities = keep_touched c.entities c.touched (install list []);
  touched = [];
  pending = false;
  seeded = true;
}

unfoldable pub abandon_seed : EntityCache → EntityCache
abandon_seed c = record c { touched = []; pending = false; seeded = false }

-- The update is older than what is stored, both having a time.
pub is_stale : EntityState → Option EntityState → Bool
is_stale es none = false
is_stale es (some existing) =
    not (es.last_updated == 0)
    && not (existing.last_updated == 0)
    && ltb es.last_updated existing.last_updated

abbrev pub touch : String → EntityCache → EntityCache
touch id c = if c.pending then record c { touched = id ∷ c.touched } else c

unfoldable pub apply : EntityState → EntityCache → EntityCache
unfolding is_stale
apply es c =
    if is_stale es (lookup es.entity_id c.entities)
    then c
    else touch es.entity_id (record c { entities = insert es.entity_id es c.entities })

unfoldable pub remove : String → EntityCache → EntityCache
remove id c = touch id (record c { entities = erase id c.entities })

-- The entity, and whether the cache is authoritative.
unfoldable pub lookup_entity : String → EntityCache → Option EntityState × Bool
lookup_entity id c = (lookup id c.entities, c.seeded)

abbrev pub get : String → EntityCache → Option EntityState
get id c = lookup id c.entities

unfoldable pub snapshot : EntityCache → Option (List EntityState)
snapshot c = if not c.seeded then none else some (map (λ e. e.1) c.entities)

unfoldable pub ready : EntityCache → Bool
ready c = c.seeded

-- What the stream does to the cache: one call for each state_changed event.
pub data Update : Type 0 where
  applies : EntityState → Update
  removes : String → Update

pub update : Update → EntityCache → EntityCache
update (applies es) c = apply es c
update (removes id) c = remove id c

pub stream : List Update → EntityCache → EntityCache
stream [] c = c
stream (u ∷ us) c = stream us (update u c)
