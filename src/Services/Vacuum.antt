-- ===== src/Services/Vacuum.antt =====
-- services/vacuum.go: what each method sends.
use go_ha.Prelude.{List}
use go_ha.Json.{Data}
use go_ha.Services.{Request, call_service, new_base_service_request, first}
use go_ha.Services.EntityId.{VacuumId}

module _ {ℓ} {E : Type ℓ} (send : Request → E) where
  abbrev pub clean_spot : VacuumId → E
  clean_spot entity_id = send (
      call_service (record (new_base_service_request entity_id.value) {
        domain = "vacuum";
        service = "clean_spot";
      }))

  abbrev pub locate : VacuumId → E
  locate entity_id = send (
      call_service (record (new_base_service_request entity_id.value) {
        domain = "vacuum";
        service = "locate";
      }))

  abbrev pub pause : VacuumId → E
  pause entity_id = send (
      call_service (record (new_base_service_request entity_id.value) {
        domain = "vacuum";
        service = "pause";
      }))

  abbrev pub return_to_base : VacuumId → E
  return_to_base entity_id = send (
      call_service (record (new_base_service_request entity_id.value) {
        domain = "vacuum";
        service = "return_to_base";
      }))

  abbrev pub send_command : VacuumId → List Data → E
  send_command entity_id service_data = send (
      call_service (record (new_base_service_request entity_id.value) {
        domain = "vacuum";
        service = "send_command";
        service_data = first service_data;
      }))

  abbrev pub set_fan_speed : VacuumId → List Data → E
  set_fan_speed entity_id service_data = send (
      call_service (record (new_base_service_request entity_id.value) {
        domain = "vacuum";
        service = "set_fan_speed";
        service_data = first service_data;
      }))

  abbrev pub start : VacuumId → E
  start entity_id = send (
      call_service (record (new_base_service_request entity_id.value) {
        domain = "vacuum";
        service = "start";
      }))

  abbrev pub start_pause : VacuumId → E
  start_pause entity_id = send (
      call_service (record (new_base_service_request entity_id.value) {
        domain = "vacuum";
        service = "start_pause";
      }))

  abbrev pub stop : VacuumId → E
  stop entity_id = send (
      call_service
        (record (new_base_service_request entity_id.value) { domain = "vacuum"; service = "stop" }))

  abbrev pub turn_off : VacuumId → E
  turn_off entity_id = send (
      call_service (record (new_base_service_request entity_id.value) {
        domain = "vacuum";
        service = "turn_off";
      }))

  abbrev pub turn_on : VacuumId → E
  turn_on entity_id = send (
      call_service (record (new_base_service_request entity_id.value) {
        domain = "vacuum";
        service = "turn_on";
      }))
