-- ===== src/Services/Scene.antt =====
-- services/scene.go: what each method sends.
use go_ha.Prelude.{List}
use go_ha.Json.{Data}
use go_ha.Services.{Request, call_service, new_base_service_request, first}
use go_ha.Services.EntityId.{SceneId}

module _ {ℓ} {E : Type ℓ} (send : Request → E) where
  abbrev pub apply : List Data → E
  apply service_data = send (
      call_service (record (new_base_service_request "") {
        domain = "scene";
        service = "apply";
        service_data = first service_data;
      }))

  abbrev pub create : SceneId → List Data → E
  create entity_id service_data = send (
      call_service (record (new_base_service_request entity_id.value) {
        domain = "scene";
        service = "create";
        service_data = first service_data;
      }))

  abbrev pub reload : E
  reload =
      send (
        call_service
          (record (new_base_service_request "") { domain = "scene"; service = "reload" }))

  abbrev pub turn_on : SceneId → List Data → E
  turn_on entity_id service_data = send (
      call_service (record (new_base_service_request entity_id.value) {
        domain = "scene";
        service = "turn_on";
        service_data = first service_data;
      }))
