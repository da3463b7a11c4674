-- ===== src/Services/Light.antt =====
-- services/light.go: what each method sends.
use go_ha.Prelude.{List}
use go_ha.Json.{Data}
use go_ha.Services.{Request, call_service, new_base_service_request, first}
use go_ha.Services.EntityId.{LightId}

module _ {ℓ} {E : Type ℓ} (send : Request → E) where
  abbrev pub turn_on : LightId → List Data → E
  turn_on entity_id service_data = send (
      call_service (record (new_base_service_request entity_id.value) {
        domain = "light";
        service = "turn_on";
        service_data = first service_data;
      }))

  abbrev pub toggle : LightId → List Data → E
  toggle entity_id service_data = send (
      call_service (record (new_base_service_request entity_id.value) {
        domain = "light";
        service = "toggle";
        service_data = first service_data;
      }))

  abbrev pub turn_off : LightId → E
  turn_off entity_id = send (
      call_service (record (new_base_service_request entity_id.value) {
        domain = "light";
        service = "turn_off";
      }))
