-- ===== src/Scheduling/Interval.antt =====
-- What NextTime and NewIntervalTrigger of internal/scheduling/interval.go answer.
use go_ha.Prelude.{
  ℕ, ◌+◌, ◌-◌, ◌*◌, ◌/◌, ◌%◌, ◌≤◌, ◌<◌, ◌≡◌, refl, ap, ◌∙◌, false, some, List, [], ◌∷◌, arith, ◌==◌,
  lt→ltb, le→ltb,
}
use native.Mathlib.Nat.{div-add-mod, mod-lt, mul_comm}
use native.Mathlib.Decide.{dec_lt}
use go_ha.Scheduling.{
  IntervalTrigger, new_interval_trigger, sum_intervals, effective_epoch, first_after, interval_next,
  magnitude, int64_min, int64_mod, sub_time, head_or_zero, search_cycle, cycle_start,
}
use go_ha.Scheduling.Ticks.{
  sum, Offset, Tick, AllPositive, IsValid, Offset-bounds, first_after-found, tick_least,
  sum_positive, head-Offset,
}

-- The first due instant after a given one.
abbrev pub IsNext : IntervalTrigger → ℕ → ℕ → Type 0
IsNext t now n = Tick t n × (now < n) × ((m : ℕ) → Tick t m → now < m → n ≤ m)

module _ (t : IntervalTrigger) (v : IsValid t) (now : ℕ) where
  positive_sum : 0 < sum t.intervals
  positive_sum = sum_positive t.intervals v.positive v.nonempty

  sized : magnitude t.total ≡ sum t.intervals
  sized = ground (arith, v.totalled, v.bounded)

  not_zero : (t.total == 0) ≡ false
  not_zero = ground (arith, v.totalled, positive_sum)

  before_epoch : now < effective_epoch t → (n : ℕ) × (interval_next t now ≡ some n) × IsNext t now n
  unfolding interval_next
  before_epoch h =
      let (o, least) = head-Offset t.intervals v.nonempty in
      (
        effective_epoch t + head_or_zero t.intervals,
        rw (not_zero, lt→ltb now (effective_epoch t) h) refl,
        (
          (0, head_or_zero t.intervals, o, omega arith),
          omega arith,
          λ m (k, s, os, e) l. omega (arith, least s os),
        ),
      )

  module _ (after : effective_epoch t ≤ now) (near : now - effective_epoch t < int64_min) where
    cycles : ℕ
    cycles = (now - effective_epoch t) / sum t.intervals

    rest : ℕ
    rest = (now - effective_epoch t) % sum t.intervals

    division : now ≡ effective_epoch t + cycles * sum t.intervals + rest
    unfolding cycles rest
    division = omega (
      arith,
      div-add-mod (now - effective_epoch t) (sum t.intervals),
      mul_comm (sum t.intervals) ((now - effective_epoch t) / sum t.intervals),
    )

    rest_small : rest < sum t.intervals
    unfolding rest
    rest_small = mod-lt _ positive_sum

    start : ℕ
    start = effective_epoch t + cycles * sum t.intervals

    sub_exact : sub_time now (effective_epoch t) ≡ now - effective_epoch t
    sub_exact = ground arith

    same_start : cycle_start t now ≡ start
    unfolding start cycles
    same_start = rw (sub_exact, sized) refl

    next_in_cycle :
        (s : ℕ)
        → first_after now start t.intervals ≡ some (start + s)
        → interval_next t now ≡ some (start + s)
    unfolding interval_next
    next_in_cycle s e =
        rw (not_zero, le→ltb now (effective_epoch t) after)
          (ap (search_cycle t now) same_start ∙ rw (e, search_cycle) refl)

    next_least :
        (s : ℕ)
        → Offset t.intervals s
        → ((z : ℕ) → Offset t.intervals z → now < start + z → s ≤ z)
        → (m : ℕ) → Tick t m
        → now < m
        → start + s ≤ m
    unfolding start
    next_least s o least m (k, z, oz, em) lm =
        let (pz, hz) = Offset-bounds oz v.positive in
        let (ps, hs) = Offset-bounds o v.positive in
        let lz : now < effective_epoch t + k * sum t.intervals + z = omega arith in
        rw em (
          tick_least now (effective_epoch t) (sum t.intervals) rest s cycles k z division
            (omega arith) hz pz lz
            (λ same. least z oz (omega (arith, ap (λ (x : ℕ). x * sum t.intervals) same))))

    from_epoch : (n : ℕ) × (interval_next t now ≡ some n) × IsNext t now n
    unfolding start
    from_epoch =
        let (s, o, e, l, least) =
          first_after-found now start t.intervals (omega (arith, division))
            (omega (arith, division, rest_small)) in
        (start + s, next_in_cycle s e, ((cycles, s, o, refl), l, next_least s o least))

-- A valid trigger always has a next instant, and it is the first of its ticks after the given one,
-- unless more than the longest duration (some 292 years) has passed since its epoch.
pub interval_next-IsNext :
    (t : IntervalTrigger) (now : ℕ)
    → IsValid t
    → now - effective_epoch t < int64_min
    → (n : ℕ) × (interval_next t now ≡ some n) × IsNext t now n
interval_next-IsNext t now v near = elim (dec_lt now (effective_epoch t)) [
  | yes early ↦ before_epoch t v now early
  | no late ↦ from_epoch t v now (omega arith) near
]

sum_intervals-sum :
    (total : ℕ) (ds : List ℕ)
    → AllPositive ds
    → total + sum ds < int64_min
    → sum_intervals total ds ≡ some (total + sum ds)
unfolding sum_intervals
sum_intervals-sum total [] p h = ap some (omega arith)
sum_intervals-sum total (d ∷ ds) p h =
    let wraps : (total + d) % int64_mod ≡ total + d = omega arith in
    let pos : (d == 0) ≡ false = ground arith in
    rw (pos, wraps) (sum_intervals-sum (total + d) ds p.1 (omega arith) ∙ ap some (omega arith))

-- The constructor accepts positive durations whose sum is an int64, and makes a valid trigger of
-- them with the epoch unset.
pub new_interval_trigger-IsValid :
    (d : ℕ) (ds : List ℕ)
    → AllPositive (d ∷ ds)
    → sum (d ∷ ds) < int64_min
    → (t : IntervalTrigger) × (new_interval_trigger d ds ≡ some t)
      × IsValid t
      × (t.intervals ≡ d ∷ ds)
      × (t.epoch ≡ 0)
unfolding new_interval_trigger
new_interval_trigger-IsValid d ds p h =
    let pos : (d == 0) ≡ false = ground arith in
    (
      record { intervals = d ∷ ds; epoch = 0; total = d + sum ds },
      rw (pos, sum_intervals-sum d ds p.1 h) refl,
      record { positive = p; nonempty = omega arith; totalled = refl; bounded = h },
      refl,
      refl,
    )
