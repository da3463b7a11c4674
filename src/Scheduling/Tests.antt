-- ===== src/Scheduling/Tests.antt =====
-- Concrete triggers of internal/scheduling.
use go_ha.Prelude.{ℕ, ◌+◌, ◌*◌, ◌/◌, ◌%◌, ◌≡◌, refl, some, [], ◌∷◌, arith}
use go_ha.Scheduling.{IntervalTrigger, interval_next}
use go_ha.Scheduling.{Calendar, FixedTimeTrigger}
use go_ha.Scheduling.Daily.{IsCalendar}
use go_ha.Scheduling.Ticks.{IsValid}
use go_ha.Scheduling.Interval.{IsNext, interval_next-IsNext}

abbrev minutes : ℕ → ℕ
minutes n = n * 60 * 1000000000

-- Every 10 and 20 minutes in turn.
abbrev in_turn : IntervalTrigger
in_turn = record { intervals = minutes 10 ∷ minutes 20 ∷ []; epoch = 5; total = minutes 30 }

in_turn-IsValid : IsValid in_turn
in_turn-IsValid = record {
  positive = (omega arith, (omega arith, tt));
  nonempty = omega arith;
  totalled = refl;
  bounded = omega arith;
}

interval_next-IsNext_example :
    (n : ℕ) × (interval_next in_turn (minutes 45) ≡ some n) × IsNext in_turn (minutes 45) n
interval_next-IsNext_example =
    interval_next-IsNext in_turn (minutes 45) in_turn-IsValid (omega arith)

-- A calendar of days of 24 hours.
abbrev plain : Calendar
plain = record {
  set_time = λ t h m. t / minutes 1440 * minutes 1440 + (h * 60 + m) % 1440 * minutes 1;
  add_day = λ t. t + minutes 1440;
}

abbrev plain_day : ℕ → ℕ
plain_day t = t / minutes 1440

plain-IsCalendar : IsCalendar plain plain_day
plain-IsCalendar = record {
  ordered = λ t u h. omega arith;
  within = λ t h m. omega arith;
  following = λ t. omega arith;
}

abbrev at_six : FixedTimeTrigger
at_six = record { hour = 6; minute = 30 }
