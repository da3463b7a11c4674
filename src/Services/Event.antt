-- ===== src/Services/Event.antt =====
-- services/event.go.
use go_ha.Prelude.{String, List}
use go_ha.Json.{Data}
use go_ha.Services.{Request, fire_event, first}

-- `Fire`.
abbrev pub fire {ℓ} : {E : Type ℓ} → (Request → E) → String → List Data → E
fire send event_type event_data = send (
    fire_event (record {
      id = 0;
      type = "fire_event";
      event_type = event_type;
      event_data = first event_data;
    }))
