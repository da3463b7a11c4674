-- ===== src/Services/Switch.antt =====
-- services/switch.go: what each method sends.
use go_ha.Services.{Request, call_service, new_base_service_request}
use go_ha.Services.EntityId.{SwitchId}

module _ {ℓ} {E : Type ℓ} (send : Request → E) where
  abbrev pub turn_on : SwitchId → E
  turn_on entity_id = send (
      call_service (record (new_base_service_request entity_id.value) {
        domain = "switch";
        service = "turn_on";
      }))

  abbrev pub toggle : SwitchId → E
  toggle entity_id = send (
      call_service (record (new_base_service_request entity_id.value) {
        domain = "switch";
        service = "toggle";
      }))

  abbrev pub turn_off : SwitchId → E
  turn_off entity_id = send (
      call_service (record (new_base_service_request entity_id.value) {
        domain = "switch";
        service = "turn_off";
      }))
