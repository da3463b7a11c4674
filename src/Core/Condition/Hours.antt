-- ===== src/Core/Condition/Hours.antt =====
-- The hours of core/condition_time.go: windows on the clock face.
use go_ha.Prelude.{
  ℕ, ◌+◌, ◌-◌, ◌*◌, ◌%◌, ◌<◌, ◌≡◌, ap, ◌↔◌, false, ◌&&◌, ◌||◌, arith, ltb, leb, ◌==◌, if◌then◌else◌,
}
use go_ha.Core.Condition.Clock.{ClockTime, time_of_day, minute_of_day}
use go_ha.Core.Condition.{
  decided, EvalContext, negation, time_between, after_time, before_time, eval,
}

-- A reading of a clock face.
abbrev pub OnFace : ℕ → ℕ → Type 0
OnFace hour minute = (hour < 24) × (minute < 60)

-- `time_of_day` accepts the times on the clock face and no others.
pub time_of_day_valid :
    (hour minute : ℕ) → ((time_of_day hour minute).invalid ≡ false) ↔ OnFace hour minute
unfolding time_of_day
time_of_day_valid hour minute = (λ h. ground arith, λ h. ground arith)

-- Minutes from one time of the day forward to another.
abbrev pub minutes_from : ℕ → ℕ → ℕ
minutes_from a b = (b + 1440 - a) % 1440

-- How long a window lasts: one that ends at its start lasts the whole day.
abbrev pub window : ℕ → ℕ → ℕ
window start end = if start == end then 1440 else minutes_from start end

abbrev pub now_minute : EvalContext → ℕ
now_minute ec = ec.now.hour * 60 + ec.now.minute

-- Between times on the clock face, a range of hours holds exactly while the time since its start is
-- less than its length, whether or not it runs through midnight.
pub time_between-window :
    (start end : ClockTime) (ec : EvalContext)
    → OnFace start.hour start.minute
    → OnFace end.hour end.minute
    → OnFace ec.now.hour ec.now.minute
    → eval (time_between start end) ec
      ≡ decided (
          ltb
            (minutes_from (minute_of_day start) (now_minute ec))
            (window (minute_of_day start) (minute_of_day end)))
unfolding eval
time_between-window start end ec hs he hn = ap decided (
    in_window (minute_of_day start) (minute_of_day end) (now_minute ec) (omega arith) (omega arith)
      (omega arith))
  where
    in_window :
        (s e n : ℕ)
        → s < 1440
        → e < 1440
        → n < 1440
        → (if leb e s then leb s n || ltb n e else leb s n && ltb n e)
          ≡ ltb (minutes_from s n) (window s e)
    in_window s e n hs' he' hn' = ground arith

-- For a valid time `t` exactly one of "before t" and "after t" holds at every moment, midnight included.
pub before_after :
    (t : ClockTime) (ec : EvalContext)
    → t.invalid ≡ false
    → OnFace t.hour t.minute
    → OnFace ec.now.hour ec.now.minute
    → eval (before_time t) ec ≡ eval (negation (after_time t)) ec
unfolding eval before_time after_time time_of_day
before_after t ec ok ht hn = ground arith
