-- ===== src/Services.antt =====
-- services/services.go: the requests that service methods send, and the sender they go to, which is a
-- parameter of every method. Each service has a module of its own.
pub mod AdaptiveLighting
pub mod AlarmControlPanel
pub mod Climate
pub mod Cover
pub mod EntityId
pub mod Typed
pub mod Addressed
mod Tests
pub mod Event
pub mod HomeAssistant
pub mod InputBoolean
pub mod InputButton
pub mod InputDatetime
pub mod InputNumber
pub mod InputText
pub mod Light
pub mod Lock
pub mod MediaPlayer
pub mod Notify
pub mod Number
pub mod Scene
pub mod Script
pub mod Switch
pub mod Timer
pub mod Tts
pub mod Vacuum
pub mod ZWaveJs
use go_ha.Prelude.{ℕ, String, str_eq, Option, none, some, List, [], ◌∷◌, if◌then◌else◌}
use go_ha.Json.{Fields, text, integer, object, empty, field, Data, omit_empty}

-- `ServiceTarget`.
pub record ServiceTarget : Type 0 where
  pub entity_id : String

pub record BaseServiceRequest : Type 0 where
  pub id : ℕ
  pub request_type : String
  pub domain : String
  pub service : String
  pub service_data : Data
  pub target : Option ServiceTarget

-- `FireEventRequest` of services/event.go.
pub record FireEventRequest : Type 0 where
  pub id : ℕ
  pub type : String
  pub event_type : String
  pub event_data : Data

-- `types.Request`, as the services implement it.
pub data Request : Type 0 where
  call_service : BaseServiceRequest → Request
  fire_event : FireEventRequest → Request

-- `SetID`.
unfoldable pub set_id : ℕ → Request → Request
set_id id (call_service r) = call_service (record r { id = id })
set_id id (fire_event r) = fire_event (record r { id = id })

unfoldable pub new_base_service_request : String → BaseServiceRequest
new_base_service_request entity_id = record {
  id = 0;
  request_type = "call_service";
  domain = "";
  service = "";
  service_data = none;
  target = if str_eq entity_id "" then none else some (record { entity_id = entity_id });
}

-- An optional last argument: the first of those given, or nothing.
abbrev pub first : List Data → Data
first [] = none
first (fields ∷ rest) = fields

-- `Call`.
abbrev pub call {ℓ} : {E : Type ℓ} → (Request → E) → String → String → String → Data → E
call send domain service entity_id fields = send (
    call_service (record (new_base_service_request entity_id) {
      domain = domain;
      service = service;
      service_data = fields;
    }))

-- The `target` member, which is omitted when there is none, as is an empty entity id within it.
abbrev pub target_members : Option ServiceTarget → Fields
target_members none = empty
target_members (some t) =
    field "target"
      (object (if str_eq t.entity_id "" then empty else field "entity_id" (text t.entity_id) empty))
      empty

-- The message that a request is encoded to, by the struct tags.
unfoldable pub encode : Request → Fields
encode (call_service r) = field "id" (integer r.id) (
    field "type" (text r.request_type) (
      field "domain" (text r.domain) (
        field "service" (text r.service)
          (omit_empty "service_data" r.service_data (target_members r.target)))))
encode (fire_event r) = field "id" (integer r.id) (
    field "type" (text r.type)
      (field "event_type" (text r.event_type) (omit_empty "event_data" r.event_data empty)))
