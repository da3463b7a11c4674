-- ===== src/Services/Notify.antt =====
-- services/notify.go.
use go_ha.Prelude.{none, some}
use go_ha.Json.{Fields, text, object, empty, field, Data}
use go_ha.Types.{NotifyRequest}
use go_ha.Services.{Request, call_service, new_base_service_request}

-- The member `data`, where the map is not nil.
abbrev data_member : Data → Fields
data_member none = empty
data_member (some fields) = field "data" (object fields) empty

-- `Notify`.
abbrev pub notify {ℓ} : {E : Type ℓ} → (Request → E) → NotifyRequest → E
notify send req_data = send (
    call_service (record (new_base_service_request "") {
      domain = "notify";
      service = req_data.service_name;
      service_data = some (
          field "message" (text req_data.message)
            (field "title" (text req_data.title) (data_member req_data.extra)));
    }))
