-- ===== src/Services/InputBoolean.antt =====
-- services/input_boolean.go: what each method sends.
use go_ha.Services.{Request, call_service, new_base_service_request}
use go_ha.Services.EntityId.{InputBooleanId}

module _ {ℓ} {E : Type ℓ} (send : Request → E) where
  abbrev pub turn_on : InputBooleanId → E
  turn_on entity_id = send (
      call_service (record (new_base_service_request entity_id.value) {
        domain = "input_boolean";
        service = "turn_on";
      }))

  abbrev pub toggle : InputBooleanId → E
  toggle entity_id = send (
      call_service (record (new_base_service_request entity_id.value) {
        domain = "input_boolean";
        service = "toggle";
      }))

  abbrev pub turn_off : InputBooleanId → E
  turn_off entity_id = send (
      call_service (record (new_base_service_request entity_id.value) {
        domain = "input_boolean";
        service = "turn_off";
      }))

  abbrev pub reload : E
  reload = send (
      call_service
        (record (new_base_service_request "") { domain = "input_boolean"; service = "reload" }))
