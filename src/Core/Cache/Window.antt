-- ===== src/Core/Cache/Window.antt =====
-- The snapshot window of core/cache.go: what a snapshot that raced the event stream leaves behind.
use go_ha.Prelude.{
  String, str_eq, eq_iff, ◌≡◌, refl, Bool, true, false, not, ◌&&◌, ◌||◌, Option, none, some, List,
  [], ◌∷◌, arith, if◌then◌else◌, contains,
}
use go_ha.Prelude.Dict.{lookup, insert, lookup-insert, lookup-erase, lookup-empty}
use go_ha.Core.Event.{EntityState}
use go_ha.Core.Cache.{
  EntityCache, begin_seed, install, keep_one, keep_touched, finish_seed, is_stale, apply, remove,
  Update, applies, removes, update, stream,
}

lookup-keep_one :
    (id t : String) (o : Option EntityState) (next : List (String × EntityState))
    → lookup id (keep_one t o next) ≡ (if str_eq t id then o else lookup id next)
unfolding keep_one
lookup-keep_one id t none next = lookup-erase t id next
lookup-keep_one id t (some es) next = lookup-insert t id es next

lookup-keep_touched :
    (id : String) (entities : List (String × EntityState)) (ids : List String)
    (next : List (String × EntityState))
    → lookup id (keep_touched entities ids next)
      ≡ (if contains ids id then lookup id entities else lookup id next)
unfolding keep_touched
lookup-keep_touched id entities [] next = refl
lookup-keep_touched id entities (t ∷ ts) next = ground (
  arith,
  eq_iff t id,
  eq_iff id t,
  lookup-keep_touched id entities ts (keep_one t (lookup t entities) next),
  lookup-keep_one id t (lookup t entities) next,
)

-- Whether the stream changed the entity: an update that is not stale, or a removal.
pub writes : List Update → EntityCache → String → Bool
writes [] c id = false
writes (applies es ∷ us) c id =
    (str_eq id es.entity_id && not (is_stale es (lookup es.entity_id c.entities)))
    || writes us (apply es c) id
writes (removes r ∷ us) c id = str_eq id r || writes us (remove r c) id

-- A window does not change what the stream stores.
pub stream_entities :
    (us : List Update) (c d : EntityCache)
    → c.entities ≡ d.entities
    → (stream us c).entities ≡ (stream us d).entities
unfolding stream update apply remove
stream_entities [] c d e = e
stream_entities (applies es ∷ us) c d e =
    stream_entities us (apply es c) (apply es d) (ground arith)
stream_entities (removes r ∷ us) c d e = stream_entities us (remove r c) (remove r d) (ground arith)

-- The names that the window has gathered.
contains-touched :
    (us : List Update) (c d : EntityCache) (id : String)
    → c.entities ≡ d.entities
    → d.pending ≡ true
    → contains (stream us d).touched id ≡ (writes us c id || contains d.touched id)
unfolding stream update writes apply remove
contains-touched [] c d id e p = refl
contains-touched (applies es ∷ us) c d id e p =
    ground (arith, contains-touched us (apply es c) (apply es d) id)
contains-touched (removes r ∷ us) c d id e p =
    ground (arith, contains-touched us (remove r c) (remove r d) id)

abbrev or_else {ℓ} : {A : Type ℓ} → Option A → Option A → Option A
or_else (some a) b = some a
or_else none b = b

-- The last entry of a snapshot for an entity.
abbrev pub latest : String → List EntityState → Option EntityState
latest id [] = none
latest id (es ∷ list) = or_else (latest id list) (if str_eq es.entity_id id then some es else none)

lookup-install :
    (id : String) (list : List EntityState) (next : List (String × EntityState))
    → lookup id (install list next) ≡ or_else (latest id list) (lookup id next)
unfolding install
lookup-install id [] next = refl
lookup-install id (es ∷ list) next = ground (
  arith,
  lookup-install id list (insert es.entity_id es next),
  lookup-insert es.entity_id id es next,
)

-- A snapshot requested before the events `us` and installed after them: an entity that the stream
-- wrote is as the stream alone leaves it, removed ones included, and any other is as the snapshot
-- last has it; the window is closed and the cache authoritative.
pub finish_seed-stream :
    (us : List Update) (list : List EntityState) (c : EntityCache) (id : String)
    → let after = finish_seed list (stream us (begin_seed c)) in
      (lookup id after.entities
        ≡ (if writes us c id then lookup id (stream us c).entities else latest id list))
      × (after.seeded ≡ true)
      × (after.pending ≡ false)
unfolding finish_seed begin_seed
finish_seed-stream us list c id = (
  ground (
    arith,
    lookup-empty {V = EntityState} id,
    contains-touched us c (begin_seed c) id,
    stream_entities us c (begin_seed c),
    lookup-keep_touched id (stream us (begin_seed c)).entities (stream us (begin_seed c)).touched
        (install list []),
    lookup-install id list [],
    lookup-empty {V = EntityState} id,
  ),
  refl,
  refl,
)
