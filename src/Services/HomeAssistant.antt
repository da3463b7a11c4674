-- ===== src/Services/HomeAssistant.antt =====
-- services/home_assistant.go: what each method sends.
use go_ha.Prelude.{List}
use go_ha.Json.{Data}
use go_ha.Services.{Request, call_service, new_base_service_request, first}
use go_ha.Services.EntityId.{EntityId}

module _ {ℓ} {E : Type ℓ} (send : Request → E) where
  abbrev pub turn_on : EntityId → List Data → E
  turn_on entity_id service_data = send (
      call_service (record (new_base_service_request entity_id) {
        domain = "homeassistant";
        service = "turn_on";
        service_data = first service_data;
      }))

  abbrev pub toggle : EntityId → List Data → E
  toggle entity_id service_data = send (
      call_service (record (new_base_service_request entity_id) {
        domain = "homeassistant";
        service = "toggle";
        service_data = first service_data;
      }))

  abbrev pub turn_off : EntityId → E
  turn_off entity_id = send (
      call_service (record (new_base_service_request entity_id) {
        domain = "homeassistant";
        service = "turn_off";
      }))
