-- ===== src/Core/Automation/Valid.antt =====
-- Which automations `Build` of core/automation.go accepts.
use go_ha.Prelude.{
  ◌<◌, String, str_eq, eq_iff, ◌≡◌, refl, ◌≢◌, ◌↔◌, Bool, true, false, not, Option, none, some,
  List, [], ◌∷◌, arith, ltb, All, is_empty,
}
use go_ha.Prelude.{all_of, then_iff, none_of}
use go_ha.Core.Condition.{
  Condition, Conditions, all, any, negation, state_is, time_between, never, on_dates, in_date_range,
  on_weekdays, sun_up, func, nil, cons,
}
use go_ha.Core.Policy.{new_runner}
use go_ha.Core.Trigger.{Trigger, is_invalid}
use go_ha.Core.Automation.{
  Automation, BuildError, error_if, validate_condition, validate_all, validate_triggers,
  condition_errors, build_errors, built, or_refused, build, is_absent,
}

-- Every leaf of the tree has arguments that make sense.
unfoldable mutual
  pub Sensible : Condition → Type 0
  Sensible (all cs) = AllSensible cs
  Sensible (any cs) = AllSensible cs
  Sensible (negation c) = Sensible c
  Sensible (time_between start end) = (start.invalid ≡ false) × (end.invalid ≡ false)
  Sensible (on_dates dates) = dates ≢ []
  Sensible (in_date_range start end) = start.instant < end.instant
  Sensible (on_weekdays days) = days ≢ []
  Sensible _ = Unit {0}

  pub AllSensible : Conditions → Type 0
  AllSensible nil = Unit {0}
  AllSensible (cons c cs) = Sensible c × AllSensible cs

abbrev pub Fits : Option Condition → Type 0
Fits none = Unit {0}
Fits (some c) = Sensible c

-- What an automation needs.
abbrev pub IsComplete : Automation → Type 0
IsComplete a =
    (a.name ≢ "")
    × ((a.triggers ≢ [])
        × ((a.action ≢ none) × (All (λ t. is_invalid t ≡ false) a.triggers × Fits a.condition)))

abbrev pub with_runtime : Automation → Automation
with_runtime a = record a { runtime = some (new_runner a.policy) }

str_eq_iff : (s : String) → (str_eq s "" ≡ false) ↔ (s ≢ "")
str_eq_iff s = (λ h. λ e. ground (arith, eq_iff s ""), λ h. ground (arith, eq_iff s ""))

is_absent_iff {ℓ} : {A : Type ℓ} (o : Option A) → (is_absent o ≡ false) ↔ (o ≢ none)
is_absent_iff none = (λ h. cc, λ h. absurd (h refl))
is_absent_iff (some a) = (λ h. λ e. cc, λ h. refl)

nothing_if : (b : Bool) (e : BuildError) → (error_if b e ≡ []) ↔ (b ≡ false)
nothing_if true e = (λ h. cc, λ h. cc)
nothing_if false e = (λ h. refl, λ h. refl)

is_empty_iff {ℓ} : {A : Type ℓ} (xs : List A) → (is_empty xs ≡ false) ↔ (xs ≢ [])
is_empty_iff [] = (λ h. cc, λ h. absurd (h refl))
is_empty_iff (x ∷ xs) = (λ h. λ e. cc, λ h. refl)

mutual
  unfolding validate_condition Sensible

  validate-Sensible : (c : Condition) → (validate_condition c ≡ []) ↔ Sensible c
  validate-Sensible (all cs) = validate_all-Sensible cs
  validate-Sensible (any cs) = validate_all-Sensible cs
  validate-Sensible (negation c) = validate-Sensible c
  validate-Sensible (state_is id states) = (λ h. tt, λ h. refl)
  validate-Sensible (time_between start end) =
      then_iff (none_of (error_if start.invalid _) (error_if end.invalid _))
        (all_of (nothing_if start.invalid _) (nothing_if end.invalid _))
  validate-Sensible never = (λ h. tt, λ h. refl)
  validate-Sensible (on_dates dates) = then_iff (nothing_if (is_empty dates) _) (is_empty_iff dates)
  validate-Sensible (in_date_range start end) =
      then_iff (nothing_if (not (ltb start.instant end.instant)) _)
        (λ h. ground arith, λ h. ground arith)
  validate-Sensible (on_weekdays days) = then_iff (nothing_if (is_empty days) _) (is_empty_iff days)
  validate-Sensible (sun_up up) = (λ h. tt, λ h. refl)
  validate-Sensible (func f) = (λ h. tt, λ h. refl)

  validate_all-Sensible : (cs : Conditions) → (validate_all cs ≡ []) ↔ AllSensible cs
  validate_all-Sensible nil = (λ h. tt, λ h. refl)
  validate_all-Sensible (cons c cs) =
      then_iff (none_of (validate_condition c) (validate_all cs))
        (all_of (validate-Sensible c) (validate_all-Sensible cs))

condition_errors-Sensible : (o : Option Condition) → (condition_errors o ≡ []) ↔ Fits o
condition_errors-Sensible none = (λ h. tt, λ h. refl)
condition_errors-Sensible (some c) = validate-Sensible c

validate_triggers-Valid :
    (ts : List Trigger) → (validate_triggers ts ≡ []) ↔ All (λ t. is_invalid t ≡ false) ts
unfolding validate_triggers
validate_triggers-Valid [] = (λ h. tt, λ h. refl)
validate_triggers-Valid (t ∷ ts) =
    then_iff (none_of (error_if (is_invalid t) _) (validate_triggers ts))
      (all_of (nothing_if (is_invalid t) _) (validate_triggers-Valid ts))

build_errors-none : (a : Automation) → (build_errors a ≡ []) ↔ IsComplete a
unfolding build_errors
build_errors-none a = then_iff (none_of (error_if (str_eq a.name "") _) _) (
    all_of (then_iff (nothing_if (str_eq a.name "") _) (str_eq_iff a.name)) (
      then_iff (none_of (error_if (is_empty a.triggers) _) _) (
        all_of (then_iff (nothing_if (is_empty a.triggers) _) (is_empty_iff a.triggers)) (
          then_iff (none_of (error_if (is_absent a.action) _) _) (
            all_of (then_iff (nothing_if (is_absent a.action) _) (is_absent_iff a.action)) (
              then_iff (none_of (validate_triggers a.triggers) _) (
                all_of (validate_triggers-Valid a.triggers)
                  (condition_errors-Sensible a.condition))))))))

or_refused-built :
    (errs : List BuildError) (a : Automation)
    → (or_refused errs a ≡ built (with_runtime a)) ↔ (errs ≡ [])
or_refused-built [] a = (λ h. refl, λ h. refl)
or_refused-built (e ∷ errs) a = (λ h. cc, λ h. cc)

-- `Build` succeeds on exactly the automations that have a name, a trigger and an action, and whose
-- triggers and conditions, at any depth, have arguments that make sense; it then adds a fresh runner
-- for the policy and changes nothing else.
pub build-IsComplete : (a : Automation) → (build a ≡ built (with_runtime a)) ↔ IsComplete a
unfolding build
build-IsComplete a = then_iff (or_refused-built (build_errors a) a) (build_errors-none a)
