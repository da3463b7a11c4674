-- ===== src/Services/InputButton.antt =====
-- services/input_button.go: what each method sends.
use go_ha.Services.{Request, call_service, new_base_service_request}
use go_ha.Services.EntityId.{InputButtonId}

module _ {ℓ} {E : Type ℓ} (send : Request → E) where
  abbrev pub press : InputButtonId → E
  press entity_id = send (
      call_service (record (new_base_service_request entity_id.value) {
        domain = "input_button";
        service = "press";
      }))

  abbrev pub reload : E
  reload = send (
      call_service
        (record (new_base_service_request "") { domain = "input_button"; service = "reload" }))
