-- ===== src/Core/Event.antt =====
-- core/event.go, and EntityState of core/state.go. JSON decoding is the standard library's, so the
-- decoders are parameters. A time is the number of nanoseconds since Go's zero time, which is 0.
use go_ha.Prelude.{
  ℕ, String, str_eq, Bool, true, false, not, Option, none, some, List, if◌then◌else◌,
}

-- A Go `any`: the code only tells text from the rest, which is kept under a number.
pub data AnyValue : Type 0 where
  text : String → AnyValue
  other : ℕ → AnyValue

pub record EntityState : Type 0 where
  pub entity_id : String
  pub state : String
  pub attributes : List (String × AnyValue)
  pub last_changed : ℕ
  pub last_updated : ℕ

abbrev pub zero_state : EntityState
zero_state = record {
  entity_id = "";
  state = "";
  attributes = List.[];
  last_changed = 0;
  last_updated = 0;
}

-- `msgState`, a state inside a state_changed payload.
pub record MsgState : Type 0 where
  pub entity_id : String
  pub last_changed : ℕ
  pub last_updated : ℕ
  pub state : String
  pub attributes : List (String × AnyValue)

-- `stateChangedPayload`, whose states are nil where the payload has null.
pub record Payload : Type 0 where
  pub entity_id : String
  pub new_state : Option MsgState
  pub old_state : Option MsgState

-- What `json.Unmarshal` makes of the bytes; `none` is its error.
pub record Decoder : Type 0 where
  pub envelope : String → Option String
  pub payload : String → Option Payload
  pub entity : String → Option EntityState
  pub entities : String → Option (List EntityState)

pub record Event : Type 0 where
  pub type : String
  pub entity_id : String
  pub from : EntityState
  pub to : EntityState
  pub created : Bool
  pub deleted : Bool
  pub raw : String

abbrev pub state_changed : String
state_changed = "state_changed"

abbrev pub is_nil {ℓ} : {A : Type ℓ} → Option A → Bool
is_nil none = true
is_nil (some a) = false

-- `Event{Type: type, Raw: raw}`.
abbrev pub bare_event : String → String → Event
bare_event type raw = record {
  type = type;
  entity_id = "";
  from = zero_state;
  to = zero_state;
  created = false;
  deleted = false;
  raw = raw;
}

abbrev pub to_entity_state : MsgState → String → EntityState
to_entity_state s id = record {
  entity_id = id;
  state = s.state;
  attributes = s.attributes;
  last_changed = s.last_changed;
  last_updated = s.last_updated;
}

-- One side of the change: the zero value where the payload has null.
abbrev pub side : Option MsgState → String → EntityState
side none id = zero_state
side (some s) id = to_entity_state s id

abbrev pub read_payload : String → String → Option Payload → Event
read_payload type raw none = bare_event type raw
read_payload type raw (some p) = record {
  type = type;
  entity_id = p.entity_id;
  from = side p.old_state p.entity_id;
  to = side p.new_state p.entity_id;
  created = is_nil p.old_state;
  deleted = is_nil p.new_state;
  raw = raw;
}

module _ (d : Decoder) where
  parse_type : String → Option String → Event
  parse_type raw none = bare_event "" raw
  parse_type raw (some type) =
      if not (str_eq type state_changed)
      then bare_event type raw
      else read_payload type raw (d.payload raw)

  unfoldable pub parse_event : String → Event
  unfolding parse_type
  parse_event raw = parse_type raw (d.envelope raw)
