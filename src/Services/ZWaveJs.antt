-- ===== src/Services/ZWaveJs.antt =====
-- services/zwavejs.go: what each method sends.
use go_ha.Prelude.{ℕ, some}
use go_ha.Json.{Any, integer, empty, field}
use go_ha.Services.{Request, call_service, new_base_service_request}
use go_ha.Services.EntityId.{EntityId}

module _ {ℓ} {E : Type ℓ} (send : Request → E) where
  abbrev pub bulk_set_partial_config_param : EntityId → ℕ → Any → E
  bulk_set_partial_config_param entity_id parameter value = send (
      call_service (record (new_base_service_request entity_id) {
        domain = "zwave_js";
        service = "bulk_set_partial_config_parameters";
        service_data = some (field "parameter" (integer parameter) (field "value" value empty));
      }))
