-- ===== src/TestServer.antt =====
-- hatest/server.go: the Home Assistant that tests run against. A connection is known by its number, and
-- what is written to it is returned as a list of frames, each with the connection. The time, and its text
-- in RFC 3339, come from the standard library. A map's entries are listed in the order of its insertions,
-- where Go has none.
pub mod Protocol
pub mod Calls
pub mod Delivery
pub mod Replica
mod Tests
use go_ha.Prelude.{
  ℕ, ◌+◌, String, str_eq, Bool, true, false, not, ◌&&◌, ◌||◌, Option, none, some, List, [], ◌∷◌,
  ◌++◌, map, length, leb, if◌then◌else◌,
}
use go_ha.Prelude.Dict.{lookup, insert, erase}
use go_ha.Prelude.Table.{find, put, drop}
use go_ha.Json.{
  Any, text, flag, integer, null, object, Fields, empty, field, Data, member, as_text, as_data,
}

-- `Token`.
abbrev pub token : String
token = "hatest-token"

pub record ServiceCall : Type 0 where
  pub domain : String
  pub service : String
  pub entity_id : String
  pub service_data : Data

pub record Entity : Type 0 where
  pub entity_id : String
  pub state : String
  pub attributes : Fields
  pub last_changed : ℕ
  pub last_updated : ℕ

-- `connection`: the event type that each subscription wants, by its id.
pub record Connection : Type 0 where
  pub subs : List (ℕ × String)

pub record Server : Type 0 where
  pub closed : Bool
  pub entities : List (String × Entity)
  pub calls : List ServiceCall
  pub conns : List (ℕ × Connection)

-- What is written to a connection.
pub record Frame : Type 0 where
  pub to : ℕ
  pub message : Fields

-- `newServer`.
unfoldable pub new_server : Server
new_server = record { closed = false; entities = []; calls = []; conns = [] }

-- The entry that the optional last argument of `SetState` and `ChangeState` names.
abbrev pub first_attributes : List Data → Fields
first_attributes [] = empty
first_attributes (none ∷ rest) = empty
first_attributes (some fields ∷ rest) = fields

-- `buildEntity`.
unfoldable pub build_entity : ℕ → String → String → List Data → Entity
build_entity now entity_id state attributes = record {
  entity_id = entity_id;
  state = state;
  attributes = first_attributes attributes;
  last_changed = now;
  last_updated = now;
}

-- `SetState`.
unfoldable pub set_state : ℕ → String → String → List Data → Server → Server
set_state now entity_id state attributes s = record s {
  entities = insert entity_id (build_entity now entity_id state attributes) s.entities;
}

-- The test of `broadcast`: the subscription wants every event or this type.
abbrev pub wants : String → String → Bool
wants event_type want = str_eq want "" || str_eq want event_type

-- The ids that `broadcast` collects.
unfoldable pub wanted_ids : String → List (ℕ × String) → List ℕ
wanted_ids event_type [] = []
wanted_ids event_type ((id, want) ∷ rest) =
    let ids = wanted_ids event_type rest in if wants event_type want then id ∷ ids else ids

-- `broadcast`, with the time's text.
unfoldable pub event_payload : String → String → Any → Any
event_payload time event_type values = object (
    field "event_type" (text event_type)
      (field "data" values (field "origin" (text "LOCAL") (field "time_fired" (text time) empty))))

abbrev pub event_frame : Any → ℕ → ℕ → Frame
event_frame payload to id = record {
  to = to;
  message = field "id" (integer id) (field "type" (text "event") (field "event" payload empty));
}

unfoldable pub broadcast : String → List (ℕ × Connection) → String → Any → List Frame
broadcast time [] event_type values = []
broadcast time ((to, c) ∷ rest) event_type values =
    map (event_frame (event_payload time event_type values) to) (wanted_ids event_type c.subs)
    ++ broadcast time rest event_type values

-- An entity as it is sent, by the struct tags.
unfoldable pub encode_entity : (ℕ → String) → Entity → Fields
encode_entity format e = field "entity_id" (text e.entity_id) (
    field "state" (text e.state) (
      field "attributes" (object e.attributes) (
        field "last_changed" (text (format e.last_changed))
          (field "last_updated" (text (format e.last_updated)) empty))))

abbrev pub state_or_null : (ℕ → String) → Option Entity → Any
state_or_null format none = null
state_or_null format (some e) = object (encode_entity format e)

abbrev pub change : String → Any → Any → Any
change entity_id old next =
    object
      (field "entity_id" (text entity_id) (field "old_state" old (field "new_state" next empty)))

-- `ChangeState`.
unfoldable pub change_state :
    (ℕ → String) → ℕ → String → String → List Data → Server → Server × List Frame
unfolding broadcast
change_state format now entity_id state attributes s =
    let next = build_entity now entity_id state attributes in
    let old = lookup entity_id s.entities in
    (
      record s { entities = insert entity_id next s.entities },
      broadcast (format now) s.conns "state_changed"
          (change entity_id (state_or_null format old) (object (encode_entity format next))),
    )

abbrev pub announce_removal : (ℕ → String) → ℕ → String → Option Entity → Server → List Frame
announce_removal format now entity_id none s = []
announce_removal format now entity_id (some old) s =
    broadcast (format now) s.conns "state_changed"
      (change entity_id (object (encode_entity format old)) null)

-- `RemoveState`.
unfoldable pub remove_state : (ℕ → String) → ℕ → String → Server → Server × List Frame
remove_state format now entity_id s = (
  record s { entities = erase entity_id s.entities },
  announce_removal format now entity_id (lookup entity_id s.entities) s,
)

-- `Fire`.
unfoldable pub fire : (ℕ → String) → ℕ → String → Any → Server → List Frame
fire format now event_type values s = broadcast (format now) s.conns event_type values

-- `serveStates`, and `serveState` on an id, which answers 404 where there is no such entity.
unfoldable pub serve_states : Server → List Entity
serve_states s = map (λ e. e.1) s.entities

unfoldable pub serve_state : String → Server → Option Entity
serve_state id s = lookup id s.entities

-- `WaitForCalls`, each time around its loop: the calls once there are `n`, and what there is once the
-- time is up, which fails the test if there is one.
unfoldable pub poll_calls : ℕ → Bool → Server → Option (List ServiceCall)
poll_calls n expired s = if leb n (length s.calls) || expired then some s.calls else none
