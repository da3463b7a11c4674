-- ===== src/Services/InputText.antt =====
-- services/input_text.go: what each method sends.
use go_ha.Prelude.{String, some}
use go_ha.Json.{text, empty, field}
use go_ha.Services.{Request, call_service, new_base_service_request}
use go_ha.Services.EntityId.{InputTextId}

module _ {ℓ} {E : Type ℓ} (send : Request → E) where
  abbrev pub set : InputTextId → String → E
  set entity_id value = send (
      call_service (record (new_base_service_request entity_id.value) {
        domain = "input_text";
        service = "set_value";
        service_data = some (field "value" (text value) empty);
      }))

  abbrev pub reload : E
  reload = send (
      call_service
        (record (new_base_service_request "") { domain = "input_text"; service = "reload" }))
