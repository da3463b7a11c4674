-- ===== src/Services/AlarmControlPanel.antt =====
-- services/alarm_control_panel.go: what each method sends.
use go_ha.Prelude.{List}
use go_ha.Json.{Data}
use go_ha.Services.{Request, call_service, new_base_service_request, first}
use go_ha.Services.EntityId.{AlarmControlPanelId}

module _ {ℓ} {E : Type ℓ} (send : Request → E) where
  abbrev pub arm_away : AlarmControlPanelId → List Data → E
  arm_away entity_id service_data = send (
      call_service (record (new_base_service_request entity_id.value) {
        domain = "alarm_control_panel";
        service = "alarm_arm_away";
        service_data = first service_data;
      }))

  abbrev pub arm_with_custom_bypass : AlarmControlPanelId → List Data → E
  arm_with_custom_bypass entity_id service_data = send (
      call_service (record (new_base_service_request entity_id.value) {
        domain = "alarm_control_panel";
        service = "alarm_arm_custom_bypass";
        service_data = first service_data;
      }))

  abbrev pub arm_home : AlarmControlPanelId → List Data → E
  arm_home entity_id service_data = send (
      call_service (record (new_base_service_request entity_id.value) {
        domain = "alarm_control_panel";
        service = "alarm_arm_home";
        service_data = first service_data;
      }))

  abbrev pub arm_night : AlarmControlPanelId → List Data → E
  arm_night entity_id service_data = send (
      call_service (record (new_base_service_request entity_id.value) {
        domain = "alarm_control_panel";
        service = "alarm_arm_night";
        service_data = first service_data;
      }))

  abbrev pub arm_vacation : AlarmControlPanelId → List Data → E
  arm_vacation entity_id service_data = send (
      call_service (record (new_base_service_request entity_id.value) {
        domain = "alarm_control_panel";
        service = "alarm_arm_vacation";
        service_data = first service_data;
      }))

  abbrev pub disarm : AlarmControlPanelId → List Data → E
  disarm entity_id service_data = send (
      call_service (record (new_base_service_request entity_id.value) {
        domain = "alarm_control_panel";
        service = "alarm_disarm";
        service_data = first service_data;
      }))

  abbrev pub trigger : AlarmControlPanelId → List Data → E
  trigger entity_id service_data = send (
      call_service (record (new_base_service_request entity_id.value) {
        domain = "alarm_control_panel";
        service = "alarm_trigger";
        service_data = first service_data;
      }))
