-- ===== src/Core/Registry/Tests.antt =====
-- Concrete triggers of core/automation_registry.go.
use go_ha.Prelude.{ℕ, String, str_eq, ◌≡◌, true, false, List, [], ◌∷◌, if◌then◌else◌}
use go_ha.Core.Event.{EntityState, Event, state_changed}
use go_ha.Core.Trigger.{Trigger, StateChangeTrigger, state_change, event_type}
use go_ha.Prelude.Dict.{lookup}
use go_ha.Core.Registry.{new_registry, decide}
use go_ha.Core.Registry.Dispatch.{Meaning, decide-Meaning}
use go_ha.Core.Registry.Subscribe.{times, subscribe_all, due, needed, subscribe_all-times}

abbrev in_state : String → EntityState
in_state s = record {
  entity_id = "door.front";
  state = s;
  attributes = [];
  last_changed = 4;
  last_updated = 4;
}

abbrev opened : Event
opened = record {
  type = state_changed;
  entity_id = "door.front";
  from = in_state "closed";
  to = in_state "open";
  created = false;
  deleted = false;
  raw = "";
}

-- The door has been open for five minutes.
abbrev left_open : StateChangeTrigger
left_open = record { entity_ids = "door.front" ∷ []; from = ""; to = "open"; hold = 300 }

decide-Meaning_example : Meaning left_open opened (decide (state_change left_open) opened)
decide-Meaning_example = decide-Meaning left_open opened

abbrev triggers : List (ℕ × Trigger)
triggers =
    (0, state_change left_open)
    ∷ (0, event_type ("doorbell" ∷ []))
    ∷ (1, event_type ("doorbell" ∷ "doorbell" ∷ []))
    ∷ []

subscribe_all-times_example :
    times "doorbell" (subscribe_all triggers new_registry).1
    ≡ (if str_eq "doorbell" state_changed then 0 else due true (needed "doorbell" triggers))
unfolding new_registry lookup
subscribe_all-times_example = subscribe_all-times triggers new_registry "doorbell"
