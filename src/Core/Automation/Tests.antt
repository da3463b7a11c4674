-- ===== src/Core/Automation/Tests.antt =====
-- A concrete automation of core/automation.go.
use go_ha.Prelude.{◌≡◌, ◌↔◌, false, [], ◌∷◌, if◌then◌else◌}
use go_ha.Core.Event.{bare_event}
use go_ha.Core.State.{not_found, err}
use go_ha.Core.Condition.{EvalContext, Conditions, state_is, on_weekdays, nil, cons}
use go_ha.Core.Policy.{new_runner, run}
use go_ha.Core.Trigger.{event_type}
use go_ha.Core.Automation.{
  Automation, new_automation, on, when, do_action, on_error, run_anyway, build, built, fire,
}
use go_ha.Core.Automation.Valid.{IsComplete, with_runtime, build-IsComplete}
use go_ha.Core.Automation.Fire.{outlook, tolerates, fire-outlook}

abbrev wednesday : EvalContext
wednesday = record {
  now = record {
    instant = 0;
    hour = 23;
    minute = 30;
    weekday = 3;
    year = 2025;
    month = 8;
    day = 6;
  };
  read = λ id. err not_found;
  event = bare_event "" "";
}

abbrev midweek : Conditions
midweek = cons (on_weekdays (3 ∷ [])) (cons (state_is "binary_sensor.home" ("on" ∷ [])) nil)

abbrev chime : Automation
chime = do_action 1 (
    on_error run_anyway
      (when midweek (on (event_type ("doorbell" ∷ []) ∷ []) (new_automation "chime"))))

build-IsComplete_example : (build chime ≡ built (with_runtime chime)) ↔ IsComplete chime
build-IsComplete_example = build-IsComplete chime

fire-outlook_example : fire chime wednesday 7 "" (new_runner chime.policy) ≡ (
    if tolerates run_anyway (outlook chime.condition wednesday)
    then run 7 "" (new_runner chime.policy)
    else (new_runner chime.policy, false))
unfolding when
fire-outlook_example = fire-outlook chime wednesday 7 "" (new_runner chime.policy)
