-- ===== src/Services/Tts.antt =====
-- services/tts.go: what each method sends.
use go_ha.Prelude.{List}
use go_ha.Json.{Data}
use go_ha.Services.{Request, call_service, new_base_service_request, first}
use go_ha.Services.EntityId.{EntityId}

module _ {ℓ} {E : Type ℓ} (send : Request → E) where
  abbrev pub clear_cache : E
  clear_cache = send (
      call_service
        (record (new_base_service_request "") { domain = "tts"; service = "clear_cache" }))

  abbrev pub cloud_say : EntityId → List Data → E
  cloud_say entity_id service_data = send (
      call_service (record (new_base_service_request entity_id) {
        domain = "tts";
        service = "cloud_say";
        service_data = first service_data;
      }))

  abbrev pub google_translate_say : EntityId → List Data → E
  google_translate_say entity_id service_data = send (
      call_service (record (new_base_service_request entity_id) {
        domain = "tts";
        service = "google_translate_say";
        service_data = first service_data;
      }))
