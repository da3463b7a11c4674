-- ===== src/Core/State/Laws.antt =====
-- When a read of core/state.go is answered by the cache, and when by Home Assistant.
use go_ha.Prelude.{
  String, str_eq, eq_iff, ◌≡◌, refl, ◌≢◌, true, ltb, ◌&&◌, Option, none, some, List, [], arith,
  if◌then◌else◌,
}
use go_ha.Prelude.Dict.{lookup, lookup-erase}
use go_ha.Core.Event.{
  EntityState, Decoder, Payload, MsgState, state_changed, to_entity_state, parse_event, side,
  is_nil, Event,
}
use go_ha.Core.Cache.{
  EntityCache, abandon_seed, remove, is_stale, Update, stream, begin_seed, lookup_entity,
}
use go_ha.Core.Cache.Window.{writes, latest, finish_seed-stream, stream_entities}
use go_ha.Core.Cache.Order.{lookup-apply, is_stale-none, is_stale-later}
use go_ha.Core.State.{
  Response, body, StateError, not_found, Result, ok, err, open_seed, close_seed, apply_event,
  get_state, fetched, apply_parsed,
}

abbrev pub found_or {ℓ} : {A : Type ℓ} → Option A → StateError → Result A
found_or (some a) e = ok a
found_or none e = err e

abbrev pub or_ask : Option EntityState → Result EntityState → Result EntityState
or_ask (some es) asked = ok es
or_ask none asked = asked

-- What is stored for an entity after an event about it: the new state, but the old one where the new
-- one has a time and the old one a later time.
abbrev pub stored : String → Option MsgState → Option EntityState → Option EntityState
stored id none old = none
stored id (some s) none = some (to_entity_state s id)
stored id (some s) (some old) =
    if ltb 0 s.last_updated && ltb s.last_updated old.last_updated
    then some old
    else some (to_entity_state s id)

abbrev changed_event : String → Payload → Option MsgState → Event
changed_event raw p new = record {
  type = state_changed;
  entity_id = p.entity_id;
  from = side p.old_state p.entity_id;
  to = side new p.entity_id;
  created = is_nil p.old_state;
  deleted = is_nil new;
  raw = raw;
}

parse_event-changed :
    (d : Decoder) (raw : String) (p : Payload)
    → d.envelope raw ≡ some state_changed
    → d.payload raw ≡ some p
    → parse_event d raw ≡ changed_event raw p p.new_state
unfolding parse_event
parse_event-changed d raw p he hp = rw (he, hp, parse_event) refl

kept-stored :
    (s : MsgState) (id : String) (old : Option EntityState)
    → (if is_stale (to_entity_state s id) old then old else some (to_entity_state s id))
      ≡ stored id (some s) old
kept-stored s id none = rw (is_stale-none (to_entity_state s id)) refl
kept-stored s id (some old) = rw (is_stale-later (to_entity_state s id) old) refl

apply_parsed-lookup :
    (raw : String) (p : Payload) (new : Option MsgState) (c : EntityCache) (id : String)
    → p.entity_id ≢ ""
    → lookup id (apply_parsed (changed_event raw p new) c).entities ≡ (
        if str_eq p.entity_id id
        then stored p.entity_id new (lookup id c.entities)
        else lookup id c.entities)
unfolding apply_parsed remove
apply_parsed-lookup raw p none c id ne =
    ground
      (arith, eq_iff p.entity_id "", eq_iff p.entity_id id, lookup-erase p.entity_id id c.entities)
apply_parsed-lookup raw p (some s) c id ne = ground (
  arith,
  eq_iff p.entity_id "",
  eq_iff p.entity_id id,
  lookup-apply (to_entity_state s p.entity_id) c id,
  kept-stored s p.entity_id (lookup id c.entities),
)

module _ (d : Decoder) where
  -- Once a snapshot that raced the events `us` has landed, a read needs no request: it gives what the
  -- stream wrote, else what the snapshot has, else "not found", whatever a request would return.
  pub get_state-seeded :
      (c : EntityCache) (us : List Update) (b : String) (list : List EntityState) (id : String)
      (r : Response)
      → d.entities b ≡ some list
      → get_state d id (close_seed d (body b) (stream us (open_seed d c))).0 r
        ≡ found_or
            (if writes us c id then lookup id (stream us c).entities else latest id list)
            not_found
  unfolding get_state close_seed open_seed lookup_entity
  get_state-seeded c us b list id r e = ground (arith, finish_seed-stream us list c id)

  -- A seed that fails gives up the cache's authority and closes the window: an entity that the
  -- cache holds is still served, and for any other Home Assistant is asked.
  pub get_state-abandoned :
      (c : EntityCache) (us : List Update) (reply r : Response) (id : String) {e : StateError}
      → (close_seed d reply (stream us (open_seed d c))).1 ≡ some e
      → get_state d id (close_seed d reply (stream us (open_seed d c))).0 r
        ≡ or_ask (lookup id (stream us c).entities) (fetched d.entity r)
  unfolding get_state close_seed open_seed lookup_entity abandon_seed begin_seed
  get_state-abandoned c us reply r id h =
      ground (arith, stream_entities us c (record c { touched = []; pending = true }))

  -- A decoded state_changed event that names its entity stores its new state for it, unless that state
  -- carries a time and the stored one a later time; so a state without a time is always stored. A null new
  -- state forgets the entity. No other entity changes.
  pub apply_event-lookup :
      (raw : String) (p : Payload) (c : EntityCache) (id : String)
      → d.envelope raw ≡ some state_changed
      → d.payload raw ≡ some p
      → p.entity_id ≢ ""
      → lookup id (apply_event d raw c).entities ≡ (
          if str_eq p.entity_id id
          then stored p.entity_id p.new_state (lookup id c.entities)
          else lookup id c.entities)
  unfolding apply_event
  apply_event-lookup raw p c id he hp ne =
      rw (parse_event-changed d raw p he hp) (apply_parsed-lookup raw p p.new_state c id ne)
