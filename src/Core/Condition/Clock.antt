-- ===== src/Core/Condition/Clock.antt =====
-- Wall-clock times of core/condition_time.go, and what a condition reads of an instant. How an
-- instant is read on the local clock and calendar is the standard library's, so a time carries its
-- readings. The calendar's instants count nanoseconds, as in Core/Event.antt.
use go_ha.Prelude.{ℕ, ◌+◌, ◌*◌, Bool, true, false, ◌&&◌, ◌||◌, ltb, ◌==◌, if◌then◌else◌}

pub record Time : Type 0 where
  pub instant : ℕ
  pub hour : ℕ
  pub minute : ℕ
  pub weekday : ℕ
  pub year : ℕ
  pub month : ℕ
  pub day : ℕ

-- `ClockTime`; `invalid` says that its err field is set.
pub record ClockTime : Type 0 where
  pub hour : ℕ
  pub minute : ℕ
  pub invalid : Bool

-- `TimeOfDay`. A negative argument is refused like one that is too large, and is left out.
unfoldable pub time_of_day : ℕ → ℕ → ClockTime
time_of_day hour minute =
    if ltb 23 hour || ltb 59 minute
    then record { hour = 0; minute = 0; invalid = true }
    else record { hour = hour; minute = minute; invalid = false }

abbrev pub minute_of_day : ClockTime → ℕ
minute_of_day c = c.hour * 60 + c.minute

-- `sameDate` of core/scheduler.go.
abbrev pub same_date : Time → Time → Bool
same_date a b = a.year == b.year && a.month == b.month && a.day == b.day
