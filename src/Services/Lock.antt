-- ===== src/Services/Lock.antt =====
-- services/lock.go: what each method sends.
use go_ha.Prelude.{List}
use go_ha.Json.{Data}
use go_ha.Services.{Request, call_service, new_base_service_request, first}
use go_ha.Services.EntityId.{LockId}

module _ {ℓ} {E : Type ℓ} (send : Request → E) where
  abbrev pub lock : LockId → List Data → E
  lock entity_id service_data = send (
      call_service (record (new_base_service_request entity_id.value) {
        domain = "lock";
        service = "lock";
        service_data = first service_data;
      }))

  abbrev pub unlock : LockId → List Data → E
  unlock entity_id service_data = send (
      call_service (record (new_base_service_request entity_id.value) {
        domain = "lock";
        service = "unlock";
        service_data = first service_data;
      }))
