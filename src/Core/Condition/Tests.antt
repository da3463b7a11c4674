-- ===== src/Core/Condition/Tests.antt =====
-- Conditions of core/condition.go at a concrete moment.
use go_ha.Prelude.{◌≡◌, false}
use go_ha.Core.Event.{bare_event}
use go_ha.Core.State.{not_found, err}
use go_ha.Core.Condition.{
  EvalContext, Conditions, nil, cons, all, any, negation, time_between, sun_up, eval,
}
use go_ha.Core.Condition.Clock.{ClockTime}
use go_ha.Core.Condition.Logic.{truth, meaning, eval-meaning, de_morgan, negate_each}

abbrev late : EvalContext
late = record {
  now = record {
    instant = 0;
    hour = 23;
    minute = 30;
    weekday = 3;
    year = 2025;
    month = 8;
    day = 6;
  };
  read = λ id. err not_found;
  event = bare_event "" "";
}

abbrev ten : ClockTime
ten = record { hour = 22; minute = 0; invalid = false }

abbrev six : ClockTime
six = record { hour = 6; minute = 15; invalid = false }

abbrev quiet : Conditions
quiet = cons (sun_up false) (cons (time_between ten six) nil)

eval-meaning_example : truth (eval (all quiet) late) ≡ meaning (all quiet) late
eval-meaning_example = eval-meaning (all quiet) late

de_morgan_example : eval (negation (all quiet)) late ≡ eval (any (negate_each quiet)) late
de_morgan_example = de_morgan quiet late
