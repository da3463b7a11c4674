-- ===== src/Scheduling/Ticks.antt =====
-- The instants at which a trigger of internal/scheduling/interval.go is due.
use go_ha.Prelude.{
  ℕ, ◌+◌, ◌*◌, ◌≤◌, ◌<◌, ◌≡◌, refl, ap, ◌∙◌, inl, inr, some, List, [], ◌∷◌, arith, ltb, Bool-cases,
  length, All, ltb→lt, ltb→le,
}
use native.Mathlib.Decide.{dec_lt}
use go_ha.Prelude.{weigh}
use go_ha.Scheduling.{IntervalTrigger, effective_epoch, first_after, int64_min, head_or_zero}

abbrev pub sum : List ℕ → ℕ
sum ds = weigh (λ d. d) ds

-- The end of one of the intervals of a cycle, counted from the cycle's start.
pub data Offset : List ℕ → ℕ → Type 0 where
  first : (d : ℕ) (ds : List ℕ) → Offset (d ∷ ds) d
  next : (d : ℕ) {ds : List ℕ} {s : ℕ} → Offset ds s → Offset (d ∷ ds) (d + s)

-- The instants at which a trigger is due: the ends of the intervals, cycle after cycle.
abbrev pub Tick : IntervalTrigger → ℕ → Type 0
Tick t n =
    (k : ℕ) × (s : ℕ) × Offset t.intervals s × (n ≡ effective_epoch t + k * sum t.intervals + s)

-- A trigger whose total is the sum of its intervals, all of them positive and at least one.
abbrev pub AllPositive : List ℕ → Type 0
AllPositive ds = All (λ d. 0 < d) ds

pub record IsValid (t : IntervalTrigger) : Type 0 where
  pub positive : AllPositive t.intervals
  pub nonempty : 0 < length t.intervals
  pub totalled : t.total ≡ sum t.intervals
  pub bounded : sum t.intervals < int64_min

pub Offset-bounds : {ds : List ℕ} {s : ℕ} → Offset ds s → AllPositive ds → (0 < s) × (s ≤ sum ds)
Offset-bounds (first d ds) p = (p.0, omega arith)
Offset-bounds (next d o) p = let (h, k) = Offset-bounds o p.1 in (omega arith, omega arith)

first-le : {d : ℕ} {ds : List ℕ} {z : ℕ} → Offset (d ∷ ds) z → d ≤ z
first-le (first d ds) = omega arith
first-le (next d o) = omega arith

next-le :
    (now c s : ℕ) {d : ℕ} {ds : List ℕ} {z : ℕ}
    → ((y : ℕ) → Offset ds y → now < c + d + y → s ≤ y)
    → c + d ≤ now
    → Offset (d ∷ ds) z
    → now < c + z
    → d + s ≤ z
next-le now c s least h (first d ds) k = absurd (omega arith)
next-le now c s least h (next d {s = y} o) k = omega (arith, least y o (omega arith))

-- The loop finds the first end of an interval past an instant, if there is one in the cycle.
pub first_after-found :
    (now c : ℕ) (ds : List ℕ)
    → c ≤ now
    → now < c + sum ds
    → (s : ℕ) × Offset ds s
      × (first_after now c ds ≡ some (c + s))
      × (now < c + s)
      × ((z : ℕ) → Offset ds z → now < c + z → s ≤ z)
unfolding first_after
first_after-found now c [] h k = absurd (omega arith)
first_after-found now c (d ∷ ds) h k = elim (Bool-cases (ltb now (c + d))) [
  | inl t ↦ (d, first d ds, rw t refl, ltb→lt _ _ t, λ z o l. first-le o)
  | inr f ↦
      let (s, o, e, l, least) = first_after-found now (c + d) ds (ltb→le _ _ f) (omega arith) in
      (
        d + s,
        next d o,
        rw f (e ∙ ap some (omega arith)),
        omega arith,
        λ z q m. next-le now c s least (ltb→le _ _ f) q m,
      )
]

mul_mono : (a b T : ℕ) → a ≤ b → a * T ≤ b * T
mul_mono a b T h = grind arith

-- A tick after an instant in cycle `q` is no earlier than the first one of that cycle after it.
pub tick_least :
    (now base T r s : ℕ) (q k z : ℕ)
    → now ≡ base + q * T + r
    → base + q * T + s ≤ base + (q + 1) * T
    → z ≤ T
    → 0 < z
    → now < base + k * T + z
    → (k ≡ q → s ≤ z)
    → base + q * T + s ≤ base + k * T + z
tick_least now base T r s q k z e b hz pz l least = elim (dec_lt k q) [
  | yes below ↦ absurd (omega (arith, mul_mono (k + 1) q T (omega arith)))
  | no n ↦ elim (dec_lt q k) [
    | yes above ↦ omega (arith, mul_mono (q + 1) k T (omega arith))
    | no m ↦ let same : k ≡ q = omega arith in omega (arith, least same, ap (λ (x : ℕ). x * T) same)
  ]
]

pub sum_positive : (ds : List ℕ) → AllPositive ds → 0 < length ds → 0 < sum ds
sum_positive [] p h = absurd (omega arith)
sum_positive (d ∷ ds) p h = omega arith

pub head-Offset :
    (ds : List ℕ)
    → 0 < length ds
    → Offset ds (head_or_zero ds) × ((z : ℕ) → Offset ds z → head_or_zero ds ≤ z)
head-Offset [] h = absurd (omega arith)
head-Offset (d ∷ ds) h = (first d ds, λ z o. first-le o)
