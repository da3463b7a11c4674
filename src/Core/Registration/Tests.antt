-- ===== src/Core/Registration/Tests.antt =====
-- Registering one automation of core/automation_registry.go that recurs daily and hears a doorbell.
use go_ha.Prelude.{◌+◌, ◌*◌, ◌/◌, String, ◌≡◌, ◌↔◌, true, none, some, [], ◌∷◌, All}
use go_ha.Core.Event.{EntityState}
use go_ha.Core.State.{not_found, Result, err}
use go_ha.Core.Automation.{Automation, new_automation, on, do_action}
use go_ha.Core.Automation.Valid.{with_runtime}
use go_ha.Core.Registry.{new_registry}
use go_ha.Core.Scheduler.{new_scheduler}
use go_ha.Core.Scheduler.Samples.{list_queue}
use go_ha.Core.Trigger.{schedule, fixed, at_startup, event_type}
use go_ha.Core.Registration.{App, register_automations, Registrable}
use go_ha.Core.Registration.Errors.{register_automations-Reports}
use go_ha.Scheduling.{Calendar}

abbrev plain : Calendar
plain = record {
  set_time = λ t h m. t / 86400000000000 * 86400000000000 + (h * 60 + m) * 60000000000;
  add_day = λ t. t + 86400000000000;
}

abbrev unreadable : String → Result EntityState
unreadable id = err not_found

abbrev chime : Automation
chime = with_runtime (
    do_action 1 (
      on
        (schedule (some (fixed (record { hour = 7; minute = 0 })))
          ∷ at_startup 1
          ∷ event_type ("doorbell" ∷ [])
          ∷ [])
        (new_automation "chime")))

abbrev empty_app : App list_queue
empty_app = record {
  registry = new_registry;
  scheduler = new_scheduler list_queue;
  scheduled = [];
  fired = [];
}

register_automations-Reports_example :
    ((register_automations list_queue plain
        (λ s. none)
        unreadable
        (λ type. true)
        5
        0
        (chime ∷ [])
        empty_app).1
      ≡ [])
    ↔ (Registrable list_queue plain (λ s. none) unreadable (λ type. true) 5 [] (chime ∷ [])
        × All
            (λ type. true ≡ true)
            (register_automations list_queue plain
              (λ s. none)
              unreadable
              (λ type. true)
              5
              0
              (chime ∷ [])
              empty_app).2)
register_automations-Reports_example =
    register_automations-Reports list_queue plain (λ s. none) unreadable (λ type. true) 5 0
      (chime ∷ []) empty_app
