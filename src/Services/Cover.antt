-- ===== src/Services/Cover.antt =====
-- services/cover.go: what each method sends.
use go_ha.Prelude.{List}
use go_ha.Json.{Data}
use go_ha.Services.{Request, call_service, new_base_service_request, first}
use go_ha.Services.EntityId.{CoverId}

module _ {ℓ} {E : Type ℓ} (send : Request → E) where
  abbrev pub close : CoverId → E
  close entity_id = send (
      call_service (record (new_base_service_request entity_id.value) {
        domain = "cover";
        service = "close_cover";
      }))

  abbrev pub close_tilt : CoverId → E
  close_tilt entity_id = send (
      call_service (record (new_base_service_request entity_id.value) {
        domain = "cover";
        service = "close_cover_tilt";
      }))

  abbrev pub open_cover : CoverId → E
  open_cover entity_id = send (
      call_service (record (new_base_service_request entity_id.value) {
        domain = "cover";
        service = "open_cover";
      }))

  abbrev pub open_tilt : CoverId → E
  open_tilt entity_id = send (
      call_service (record (new_base_service_request entity_id.value) {
        domain = "cover";
        service = "open_cover_tilt";
      }))

  abbrev pub set_position : CoverId → List Data → E
  set_position entity_id service_data = send (
      call_service (record (new_base_service_request entity_id.value) {
        domain = "cover";
        service = "set_cover_position";
        service_data = first service_data;
      }))

  abbrev pub set_tilt_position : CoverId → List Data → E
  set_tilt_position entity_id service_data = send (
      call_service (record (new_base_service_request entity_id.value) {
        domain = "cover";
        service = "set_cover_tilt_position";
        service_data = first service_data;
      }))

  abbrev pub stop : CoverId → E
  stop entity_id = send (
      call_service (record (new_base_service_request entity_id.value) {
        domain = "cover";
        service = "stop_cover";
      }))

  abbrev pub stop_tilt : CoverId → E
  stop_tilt entity_id = send (
      call_service (record (new_base_service_request entity_id.value) {
        domain = "cover";
        service = "stop_cover_tilt";
      }))

  abbrev pub toggle : CoverId → E
  toggle entity_id = send (
      call_service (record (new_base_service_request entity_id.value) {
        domain = "cover";
        service = "toggle";
      }))

  abbrev pub toggle_tilt : CoverId → E
  toggle_tilt entity_id = send (
      call_service (record (new_base_service_request entity_id.value) {
        domain = "cover";
        service = "toggle_cover_tilt";
      }))
