-- ===== src/TestServer/Replica.antt =====
-- hatest/server.go: a subscriber that follows the announced changes knows every entity. Frames are taken
-- as the server writes them, before JSON.
use go_ha.Prelude.{
  ℕ, ◌≤◌, String, str_eq, ◌≡◌, true, ◌&&◌, Option, none, some, List, [], ◌∷◌, ◌++◌, ◌==◌,
  if◌then◌else◌,
}
use go_ha.Prelude.Table.{find, entries}
use go_ha.Json.{Any, null, Data, Fields, empty, member, as_text, as_data}
use go_ha.TestServer.{
  wants, Connection, Frame, Entity, Server, state_or_null, change_state, remove_state, serve_state,
}
use go_ha.TestServer.Protocol.{as_id}

-- `ChangeState` or `RemoveState`, with the time.
pub data Announced : Type 0 where
  changes : ℕ → String → String → List Data → Announced
  removes : ℕ → String → Announced

abbrev pub member_of : String → Data → Option Any
member_of key none = none
member_of key (some fields) = member key fields

abbrev or_null : Option Any → Any
or_null none = null
or_null (some v) = v

-- The data of an event.
abbrev pub event_data : Fields → Data
event_data message = as_data (member_of "data" (as_data (member "event" message)))

-- What a subscriber holds of an entity, once it has read an event.
abbrev pub reads : String → Data → Any → Any
reads id event held =
    if str_eq (as_text (member_of "entity_id" event)) id
    then or_null (member_of "new_state" event)
    else held

-- The attributes of a call that names some.
abbrev given : List Data → Fields
given [] = empty
given (none ∷ rest) = empty
given (some fields ∷ rest) = fields

-- What a call leaves of the entity, and what calls leave of it, one after another.
abbrev pub said_by : String → Announced → Option Entity → Option Entity
said_by id (changes now other state attributes) before =
    if str_eq other id
    then some (record {
      entity_id = other;
      state = state;
      attributes = given attributes;
      last_changed = now;
      last_updated = now;
    })
    else before
said_by id (removes now other) before = if str_eq other id then none else before

abbrev pub said : String → List Announced → Option Entity → Option Entity
said id [] before = before
said id (a ∷ rest) before = said id rest (said_by id a before)

module _ (format : ℕ → String) where
  unfoldable pub announce : Announced → Server → Server × List Frame
  announce (changes now other state attributes) s = change_state format now other state attributes s
  announce (removes now other) s = remove_state format now other s

  -- One after another, with all that is written.
  pub announce_all : List Announced → Server → Server × List Frame
  unfolding announce
  announce_all [] s = (s, [])
  announce_all (a ∷ rest) s =
      let (next, frames) = announce a s in
      let (last, more) = announce_all rest next in (last, frames ++ more)

module _ (truncate : ℕ → ℕ) (to sub : ℕ) (id : String) where
  -- The subscriber on a connection takes the frames that carry its subscription's id.
  abbrev pub takes : Frame → Any → Any
  takes f held =
      if f.to == to && as_id truncate (member "id" f.message) == sub
      then reads id (event_data f.message) held
      else held

  abbrev pub follow : List Frame → Any → Any
  follow [] held = held
  follow (f ∷ frames) held = follow frames (takes f held)

  -- The subscription is there, once, and wants the changes.
  pub record Follows (s : Server) : Type 0 where
    pub conn : Connection
    pub want : String
    pub there : find to s.conns ≡ some conn
    pub alone : entries to s.conns ≤ 1
    pub asked : find sub conn.subs ≡ some want
    pub once : entries sub conn.subs ≤ 1
    pub wanted : wants "state_changed" want ≡ true

  module _ (format : ℕ → String) where
    -- The entity as the server sends it, or null.
    abbrev pub shown_by : Server → Any
    shown_by s = state_or_null format (serve_state id s)
