-- ===== src/Scheduling/Daily.antt =====
-- `FixedTimeTrigger.NextTime` of internal/scheduling/daily.go.
use go_ha.Prelude.{
  ℕ, ◌+◌, ◌≤◌, ◌<◌, ◌≡◌, inl, inr, some, arith, ltb, if◌then◌else◌, Bool-cases, ltb→lt, ltb→le,
}
use go_ha.Scheduling.{Calendar, FixedTimeTrigger, fixed_next}

-- What the trigger relies on of a calendar: days follow one another, setting the time of day stays
-- within the day, and a day later is in the next day.
pub record IsCalendar (c : Calendar) (day : ℕ → ℕ) : Type 0 where
  pub ordered : (t u : ℕ) → t ≤ u → day t ≤ day u
  pub within : (t h m : ℕ) → day (c.set_time t h m) ≡ day t
  pub following : (t : ℕ) → day (c.add_day t) ≡ day t + 1

-- With such a calendar a daily trigger always fires again, strictly later: today if today's time is still to come,
-- otherwise tomorrow.
pub fixed_next-strict :
    (c : Calendar) (day : ℕ → ℕ) (t : FixedTimeTrigger) (now : ℕ)
    → IsCalendar c day
    → (n : ℕ) × (fixed_next c t now ≡ some n)
      × (now < n)
      × (day n ≡ (if ltb now (c.set_time now t.hour t.minute) then day now else day now + 1))
unfolding fixed_next
fixed_next-strict c day t now v =
    let today = c.set_time now t.hour t.minute in
    let same = v.within now t.hour t.minute in
    let tomorrow = v.following today in
    elim (Bool-cases (ltb now today)) [
      | inl later ↦ (today, ground arith, ground arith, ground arith)
      | inr passed ↦
          (c.add_day today, ground arith, after_midnight today same tomorrow, ground arith)
    ]
  where
    after_midnight :
        (today : ℕ)
        → day today ≡ day now
        → day (c.add_day today) ≡ day today + 1
        → now < c.add_day today
    after_midnight today same tomorrow = elim (Bool-cases (ltb now (c.add_day today))) [
      | inl h ↦ ltb→lt now (c.add_day today) h
      | inr h ↦ absurd (
          omega (
            arith,
            v.ordered (c.add_day today) now (ltb→le now (c.add_day today) h),
            same,
            tomorrow,
          ))
    ]
