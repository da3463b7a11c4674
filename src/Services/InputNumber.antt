-- ===== src/Services/InputNumber.antt =====
-- services/input_number.go: what each method sends.
use go_ha.Prelude.{ℕ, some}
use go_ha.Json.{float, empty, field}
use go_ha.Services.{Request, call_service, new_base_service_request}
use go_ha.Services.EntityId.{InputNumberId}

module _ {ℓ} {E : Type ℓ} (send : Request → E) where
  abbrev pub set : InputNumberId → ℕ → E
  set entity_id value = send (
      call_service (record (new_base_service_request entity_id.value) {
        domain = "input_number";
        service = "set_value";
        service_data = some (field "value" (float value) empty);
      }))

  abbrev pub increment : InputNumberId → E
  increment entity_id = send (
      call_service (record (new_base_service_request entity_id.value) {
        domain = "input_number";
        service = "increment";
      }))

  abbrev pub decrement : InputNumberId → E
  decrement entity_id = send (
      call_service (record (new_base_service_request entity_id.value) {
        domain = "input_number";
        service = "decrement";
      }))

  abbrev pub reload : E
  reload = send (
      call_service
        (record (new_base_service_request "") { domain = "input_number"; service = "reload" }))
