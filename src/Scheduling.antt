-- ===== src/Scheduling.antt =====
-- internal/scheduling: when a trigger fires next. Instants count nanoseconds from Go's zero time; one
-- before it is 0. Calendar arithmetic is the carbon library's and the standard library's, and cron
-- expressions are robfig/cron's, so these are parameters.
pub mod Ticks
pub mod Interval
pub mod Daily
mod Tests
use go_ha.Prelude.{
  ℕ, zero, suc, ◌+◌, ◌-◌, ◌*◌, ◌/◌, ◌%◌, ◌^◌, ◌≤◌, ◌<◌, String, str_eq, eq_iff, eq_refl, ◌≡◌, refl,
  sym, ap, ◌∙◌, fun_ext, ◌≢◌, ◌↔◌, ◌⊎◌, inl, inr, Bool, true, false, not, ◌&&◌, ◌||◌, Option, none,
  some, List, [], ◌∷◌, ◌++◌, map, arith, ltb, leb, ◌==◌, if◌then◌else◌, Bool-cases, Option-cases,
  length, length-append, All, All-map, All-append, contains, is_empty, ltb→lt, ltb→le,
}

-- What the code asks of a calendar: the same day at a time of the day, and a day later.
pub record Calendar : Type 0 where
  pub set_time : ℕ → ℕ → ℕ → ℕ
  pub add_day : ℕ → ℕ

-- `FixedTimeTrigger`.
pub record FixedTimeTrigger : Type 0 where
  pub hour : ℕ
  pub minute : ℕ

-- `FixedTimeTrigger.NextTime`, which always has an answer.
unfoldable pub fixed_next : Calendar → FixedTimeTrigger → ℕ → Option ℕ
fixed_next c t now =
    let next = c.set_time now t.hour t.minute in
    some (if not (ltb now next) then c.add_day next else next)

-- `CronTrigger` over a parsed schedule, whose `Next` is robfig/cron's.
abbrev pub CronTrigger : Type 0
CronTrigger = ℕ → ℕ

-- `CronTrigger.NextTime`.
unfoldable pub cron_next : CronTrigger → ℕ → Option ℕ
cron_next schedule now = some (schedule now)

-- Durations are int64. A total is kept as its bit pattern, negative from 2^63 on.
abbrev pub int64_min : ℕ
int64_min = 2 ^ 63

abbrev pub int64_mod : ℕ
int64_mod = 2 ^ 64

abbrev pub magnitude : ℕ → ℕ
magnitude d = if ltb d int64_min then d else int64_mod - d

-- `Time.Add`.
abbrev pub add_duration : ℕ → ℕ → ℕ
add_duration t d = if ltb d int64_min then t + d else t - (int64_mod - d)

-- `Time.Sub`, which saturates; only called for a time that is not before the other.
abbrev pub sub_time : ℕ → ℕ → ℕ
sub_time t u = if ltb (int64_min - 1) (t - u) then int64_min - 1 else t - u

pub record IntervalTrigger : Type 0 where
  pub intervals : List ℕ
  pub epoch : ℕ
  pub total : ℕ

-- The loop of `NewIntervalTrigger`; a duration that is not positive is 0, and is refused.
pub sum_intervals : ℕ → List ℕ → Option ℕ
sum_intervals total [] = some total
sum_intervals total (d ∷ ds) =
    let rest = sum_intervals ((total + d) % int64_mod) ds in if d == 0 then none else rest

abbrev pub with_total : List ℕ → Option ℕ → Option IntervalTrigger
with_total ds none = none
with_total ds (some total) = some (record { intervals = ds; epoch = 0; total = total })

unfoldable pub new_interval_trigger : ℕ → List ℕ → Option IntervalTrigger
unfolding sum_intervals
new_interval_trigger interval additional =
    if interval == 0
    then none
    else with_total (interval ∷ additional) (sum_intervals interval additional)

-- `WithEpoch`.
unfoldable pub with_epoch : IntervalTrigger → ℕ → IntervalTrigger
with_epoch t epoch = record t { epoch = epoch }

-- `time.Unix(0, 0)`.
abbrev pub unix_epoch : ℕ
unix_epoch = 62135596800 * 1000000000

abbrev pub effective_epoch : IntervalTrigger → ℕ
effective_epoch t = if t.epoch == 0 then unix_epoch else t.epoch

abbrev pub head_or_zero : List ℕ → ℕ
head_or_zero [] = 0
head_or_zero (d ∷ ds) = d

-- The loop through one cycle.
pub first_after : ℕ → ℕ → List ℕ → Option ℕ
first_after now cycle [] = none
first_after now cycle (d ∷ ds) =
    let rest = first_after now (cycle + d) ds in
    if ltb now (cycle + d) then some (cycle + d) else rest

abbrev pub or_else : Option ℕ → ℕ → Option ℕ
or_else none n = some n
or_else (some m) n = some m

-- The search of a cycle from its start, and the first interval of the next cycle after it.
pub search_cycle : IntervalTrigger → ℕ → ℕ → Option ℕ
unfolding first_after
search_cycle t now start =
    or_else (first_after now start t.intervals)
      (add_duration start t.total + head_or_zero t.intervals)

-- The start of the cycle that an instant lies in. Both factors change sign with the total.
abbrev pub cycle_start : IntervalTrigger → ℕ → ℕ
cycle_start t now =
    effective_epoch t + sub_time now (effective_epoch t) / magnitude t.total * magnitude t.total

-- `IntervalTrigger.NextTime`.
unfoldable pub interval_next : IntervalTrigger → ℕ → Option ℕ
unfolding search_cycle
interval_next t now =
    if t.total == 0
    then none
    else if ltb now (effective_epoch t)
    then some (effective_epoch t + head_or_zero t.intervals)
    else search_cycle t now (cycle_start t now)
