-- ===== src/Services/Script.antt =====
-- services/script.go: what each method sends.
use go_ha.Services.{Request, call_service, new_base_service_request}
use go_ha.Services.EntityId.{ScriptId}

module _ {ℓ} {E : Type ℓ} (send : Request → E) where
  abbrev pub reload : ScriptId → E
  reload entity_id = send (
      call_service (record (new_base_service_request entity_id.value) {
        domain = "script";
        service = "reload";
      }))

  abbrev pub toggle : ScriptId → E
  toggle entity_id = send (
      call_service (record (new_base_service_request entity_id.value) {
        domain = "script";
        service = "toggle";
      }))

  abbrev pub turn_off : ScriptId → E
  turn_off entity_id = send (
      call_service (record (new_base_service_request entity_id.value) {
        domain = "script";
        service = "turn_off";
      }))

  abbrev pub turn_on : ScriptId → E
  turn_on entity_id = send (
      call_service (record (new_base_service_request entity_id.value) {
        domain = "script";
        service = "turn_on";
      }))
