-- ===== src/Services/Climate.antt =====
-- services/climate.go: what each method sends.
use go_ha.Prelude.{String, some}
use go_ha.Json.{text, empty, field}
use go_ha.Types.{SetTemperatureRequest, to_json}
use go_ha.Services.{Request, call_service, new_base_service_request}
use go_ha.Services.EntityId.{ClimateId}

module _ {ℓ} {E : Type ℓ} (send : Request → E) where
  abbrev pub set_fan_mode : ClimateId → String → E
  set_fan_mode entity_id fan_mode = send (
      call_service (record (new_base_service_request entity_id.value) {
        domain = "climate";
        service = "set_fan_mode";
        service_data = some (field "fan_mode" (text fan_mode) empty);
      }))

  abbrev pub set_temperature : ClimateId → SetTemperatureRequest → E
  set_temperature entity_id service_data = send (
      call_service (record (new_base_service_request entity_id.value) {
        domain = "climate";
        service = "set_temperature";
        service_data = some (to_json service_data);
      }))
