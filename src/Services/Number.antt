-- ===== src/Services/Number.antt =====
-- services/number.go: what each method sends.
use go_ha.Prelude.{ℕ, some}
use go_ha.Json.{float, empty, field}
use go_ha.Services.{Request, call_service, new_base_service_request}
use go_ha.Services.EntityId.{NumberId}

module _ {ℓ} {E : Type ℓ} (send : Request → E) where
  abbrev pub set_value : NumberId → ℕ → E
  set_value entity_id value = send (
      call_service (record (new_base_service_request entity_id.value) {
        domain = "number";
        service = "set_value";
        service_data = some (field "value" (float value) empty);
      }))
