-- ===== src/Services/Timer.antt =====
-- services/timer.go: what each method sends.
use go_ha.Prelude.{String, some}
use go_ha.Json.{text, empty, field}
use go_ha.Services.{Request, call_service, new_base_service_request}
use go_ha.Services.EntityId.{TimerId}

module _ {ℓ} {E : Type ℓ} (send : Request → E) where
  abbrev pub start : TimerId → String → E
  start entity_id duration = send (
      call_service (record (new_base_service_request entity_id.value) {
        domain = "timer";
        service = "start";
        service_data = some (field "duration" (text duration) empty);
      }))

  abbrev pub change : TimerId → String → E
  change entity_id duration = send (
      call_service (record (new_base_service_request entity_id.value) {
        domain = "timer";
        service = "change";
        service_data = some (field "duration" (text duration) empty);
      }))

  abbrev pub pause : TimerId → E
  pause entity_id = send (
      call_service
        (record (new_base_service_request entity_id.value) { domain = "timer"; service = "pause" }))

  abbrev pub cancel : TimerId → E
  cancel entity_id = send (
      call_service (record (new_base_service_request entity_id.value) {
        domain = "timer";
        service = "cancel";
      }))

  abbrev pub finish : TimerId → E
  finish entity_id = send (
      call_service (record (new_base_service_request entity_id.value) {
        domain = "timer";
        service = "finish";
      }))

  abbrev pub reload : E
  reload =
      send (
        call_service
          (record (new_base_service_request "") { domain = "timer"; service = "reload" }))
