-- ===== src/Services/AdaptiveLighting.antt =====
-- services/adaptive_lighting.go: what each method sends.
use go_ha.Prelude.{Bool, some}
use go_ha.Json.{text, flag, empty, field}
use go_ha.Services.{Request, call_service, new_base_service_request}
use go_ha.Services.EntityId.{EntityId}

module _ {ℓ} {E : Type ℓ} (send : Request → E) where
  abbrev pub set_manual_control : EntityId → Bool → E
  set_manual_control entity_id enabled = send (
      call_service (record (new_base_service_request "") {
        domain = "adaptive_lighting";
        service = "set_manual_control";
        service_data =
            some (field "entity_id" (text entity_id) (field "manual_control" (flag enabled) empty));
      }))
