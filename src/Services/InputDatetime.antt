-- ===== src/Services/InputDatetime.antt =====
-- services/input_datetime.go: what each method sends.
use go_ha.Prelude.{ℕ, String, some}
use go_ha.Json.{text, empty, field}
use go_ha.Services.{Request, call_service, new_base_service_request}
use go_ha.Services.EntityId.{InputDatetimeId}

-- A time from 1970 on is its Unix time in seconds, which `fmt.Sprint` writes.
module _ {ℓ} {E : Type ℓ} (sprint : ℕ → String) (send : Request → E) where
  abbrev pub set : InputDatetimeId → ℕ → E
  set entity_id value = send (
      call_service (record (new_base_service_request entity_id.value) {
        domain = "input_datetime";
        service = "set_datetime";
        service_data = some (field "timestamp" (text (sprint value)) empty);
      }))

  abbrev pub reload : E
  reload = send (
      call_service
        (record (new_base_service_request "") { domain = "input_datetime"; service = "reload" }))
