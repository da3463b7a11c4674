-- ===== src/Core/Automation.antt =====
-- core/automation.go: building an automation, and firing it. Its action is the user's, and is kept
-- under a number; the runner that Build allocates is an argument of `fire`.
pub mod Valid
pub mod Fire
mod Tests
use go_ha.Prelude.{
  ℕ, zero, suc, ◌+◌, ◌-◌, ◌*◌, ◌/◌, ◌%◌, ◌^◌, ◌≤◌, ◌<◌, String, str_eq, eq_iff, eq_refl, ◌≡◌, refl,
  sym, ap, ◌∙◌, fun_ext, ◌≢◌, ◌↔◌, ◌⊎◌, inl, inr, Bool, true, false, not, ◌&&◌, ◌||◌, Option, none,
  some, List, [], ◌∷◌, ◌++◌, map, arith, ltb, leb, ◌==◌, if◌then◌else◌, Bool-cases, Option-cases,
  length, length-append, All, All-map, All-append, contains, is_empty, ltb→lt, ltb→le,
}
use go_ha.Core.Condition.{
  Verdict, decided, undecided, EvalContext, Condition, Conditions, all, any, negation, state_is,
  time_between, never, on_dates, in_date_range, on_weekdays, sun_up, func, nil, cons, eval,
}
use go_ha.Core.Policy.{Mode, single, Policy, Runner, new_runner, run}
use go_ha.Core.Trigger.{Trigger, is_invalid}

-- What a condition that cannot be evaluated does to the run.
pub data ConditionErrorPolicy : Type 0 where
  skip_run run_anyway : ConditionErrorPolicy

-- `Automation`; `runtime` is absent until Build.
pub record Automation : Type 0 where
  pub name : String
  pub triggers : List Trigger
  pub condition : Option Condition
  pub policy : Policy
  pub action : Option ℕ
  pub on_condition_error : ConditionErrorPolicy
  pub runtime : Option Runner

-- `NewAutomation`. A builder is the automation so far: no stage adds to its list of errors.
abbrev pub new_automation : String → Automation
new_automation name = record {
  name = name;
  triggers = [];
  condition = none;
  policy = record { mode = single; throttle = 0; max_runs = 0 };
  action = none;
  on_condition_error = skip_run;
  runtime = none;
}

-- The stages of the builder.
abbrev pub on : List Trigger → Automation → Automation
on triggers a = record a { triggers = a.triggers ++ triggers }

abbrev pub combined : Option Condition → Conditions → Condition
combined none cs = all cs
combined (some c) cs = all (cons c (cons (all cs) nil))

unfoldable pub when : Conditions → Automation → Automation
when cs a = record a { condition = some (combined a.condition cs) }

abbrev pub in_mode : Mode → Automation → Automation
in_mode m a = record a {
  policy = record { mode = m; throttle = a.policy.throttle; max_runs = a.policy.max_runs };
}

abbrev pub throttled : ℕ → Automation → Automation
throttled d a = record a {
  policy = record { mode = a.policy.mode; throttle = d; max_runs = a.policy.max_runs };
}

abbrev pub limited : ℕ → Automation → Automation
limited n a = record a {
  policy = record { mode = a.policy.mode; throttle = a.policy.throttle; max_runs = n };
}

abbrev pub on_error : ConditionErrorPolicy → Automation → Automation
on_error p a = record a { on_condition_error = p }

abbrev pub do_action : ℕ → Automation → Automation
do_action action a = record a { action = some action }

-- What can be wrong with an automation.
pub data BuildError : Type 0 where
  no_name no_triggers no_action bad_trigger bad_clock no_dates bad_range no_days : BuildError

abbrev pub error_if : Bool → BuildError → List BuildError
error_if true e = e ∷ []
error_if false e = []

-- `validateCondition` and `validateAll`, with the `validate` of each leaf.
unfoldable mutual
  pub validate_condition : Condition → List BuildError
  validate_condition (all cs) = validate_all cs
  validate_condition (any cs) = validate_all cs
  validate_condition (negation c) = validate_condition c
  validate_condition (state_is id states) = []
  validate_condition (time_between start end) =
      error_if start.invalid bad_clock ++ error_if end.invalid bad_clock
  validate_condition never = []
  validate_condition (on_dates dates) = error_if (is_empty dates) no_dates
  validate_condition (in_date_range start end) =
      error_if (not (ltb start.instant end.instant)) bad_range
  validate_condition (on_weekdays days) = error_if (is_empty days) no_days
  validate_condition (sun_up up) = []
  validate_condition (func f) = []

  pub validate_all : Conditions → List BuildError
  validate_all nil = []
  validate_all (cons c cs) = validate_condition c ++ validate_all cs

-- The loop over the triggers.
pub validate_triggers : List Trigger → List BuildError
validate_triggers [] = []
validate_triggers (t ∷ ts) = error_if (is_invalid t) bad_trigger ++ validate_triggers ts

abbrev pub is_absent {ℓ} : {A : Type ℓ} → Option A → Bool
is_absent none = true
is_absent (some a) = false

abbrev pub condition_errors : Option Condition → List BuildError
condition_errors none = []
condition_errors (some c) = validate_condition c

-- Everything that `Build` finds wrong.
unfoldable pub build_errors : Automation → List BuildError
unfolding validate_triggers
build_errors a =
    error_if (str_eq a.name "") no_name
    ++ (error_if (is_empty a.triggers) no_triggers
        ++ (error_if (is_absent a.action) no_action
            ++ (validate_triggers a.triggers ++ condition_errors a.condition)))

pub data Built : Type 0 where
  built : Automation → Built
  refused : List BuildError → Built

abbrev pub or_refused : List BuildError → Automation → Built
or_refused [] a = built (record a { runtime = some (new_runner a.policy) })
or_refused (e ∷ errs) a = refused (e ∷ errs)

-- `Build`.
unfoldable pub build : Automation → Built
unfolding build_errors
build a = or_refused (build_errors a) a

-- What `fire` does with the condition's answer.
abbrev pub goes_on : ConditionErrorPolicy → Verdict → Bool
goes_on skip_run (undecided e) = false
goes_on run_anyway (undecided e) = true
goes_on p (decided b) = b

abbrev pub permits : Automation → EvalContext → Option Condition → Bool
permits a ec none = true
permits a ec (some c) = goes_on a.on_condition_error (eval c ec)

-- `fire`, at the instant that the runner's clock shows: what the run leaves of the runner, and
-- whether the action was admitted.
unfoldable pub fire : Automation → EvalContext → ℕ → String → Runner → Runner × Bool
fire a ec now key r = if permits a ec a.condition then run now key r else (r, false)
