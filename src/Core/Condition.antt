-- ===== src/Core/Condition.antt =====
-- core/condition.go, condition_state.go, condition_time.go, condition_date.go, and the condition of
-- core/sun.go. A condition is a tree; the error of an evaluation says that it is undecided. The clock
-- is taken to stand still during one evaluation, which reads it once at each leaf.
pub mod Clock
pub mod Logic
pub mod Hours
mod Tests
use go_ha.Prelude.{
  ℕ, zero, suc, ◌+◌, ◌-◌, ◌*◌, ◌/◌, ◌%◌, ◌^◌, ◌≤◌, ◌<◌, String, str_eq, eq_iff, eq_refl, ◌≡◌, refl,
  sym, ap, ◌∙◌, fun_ext, ◌≢◌, ◌↔◌, ◌⊎◌, inl, inr, Bool, true, false, not, ◌&&◌, ◌||◌, Option, none,
  some, List, [], ◌∷◌, ◌++◌, map, arith, ltb, leb, ◌==◌, if◌then◌else◌, Bool-cases, Option-cases,
  length, length-append, All, All-map, All-append, contains, is_empty, ltb→lt, ltb→le,
}
use go_ha.Core.Event.{EntityState, Event}
use go_ha.Core.State.{StateError, Result, ok, err}
use Clock.{Time, ClockTime, time_of_day, minute_of_day, same_date}

-- Why a condition is undecided: an entity that cannot be read, or an error of a user's function.
pub data EvalError : Type 0 where
  reading : String → StateError → EvalError
  custom : String → EvalError

-- The pair that `Eval` returns: an answer, or an error.
pub data Verdict : Type 0 where
  decided : Bool → Verdict
  undecided : EvalError → Verdict

-- `EvalContext`: the clock's reading, `StateReader.Get`, and the event.
pub record EvalContext : Type 0 where
  pub now : Time
  pub read : String → Result EntityState
  pub event : Event

mutual
  pub data Condition : Type 0 where
    all any : Conditions → Condition
    negation : Condition → Condition
    state_is : String → List String → Condition
    time_between : ClockTime → ClockTime → Condition
    never : Condition
    on_dates : List Time → Condition
    in_date_range : Time → Time → Condition
    on_weekdays : List ℕ → Condition
    sun_up : Bool → Condition
    func : (EvalContext → Verdict) → Condition

  pub data Conditions : Type 0 where
    nil : Conditions
    cons : Condition → Conditions → Conditions

-- `StateIs`, `StateIsOneOf`, `StateIsNot`.
abbrev pub state_is_not : String → String → Condition
state_is_not entity state = negation (state_is entity (state ∷ []))

-- `AfterTime`.
unfoldable pub after_time : ClockTime → Condition
after_time t = time_between t (time_of_day 0 0)

-- `BeforeTime`: nothing is before midnight.
unfoldable pub before_time : ClockTime → Condition
before_time t =
    if not t.invalid && minute_of_day t == 0 then never else time_between (time_of_day 0 0) t

abbrev pub sun_entity : String
sun_entity = "sun.sun"

abbrev pub eval_state : String → List String → Result EntityState → Verdict
eval_state id states (ok es) = decided (contains states es.state)
eval_state id states (err e) = undecided (reading id e)

-- An end at or before the start means that the range runs through midnight.
abbrev pub in_range : ℕ → ℕ → ℕ → Bool
in_range start end current =
    if leb end start
    then leb start current || ltb current end
    else leb start current && ltb current end

abbrev pub on_any_date : List Time → Time → Bool
on_any_date [] now = false
on_any_date (d ∷ dates) now = same_date d now || on_any_date dates now

abbrev pub contains_day : List ℕ → ℕ → Bool
contains_day [] day = false
contains_day (d ∷ days) day = day == d || contains_day days day

abbrev pub same : Bool → Bool → Bool
same true b = b
same false b = not b

abbrev pub eval_sun : Bool → Result EntityState → Verdict
eval_sun up (ok es) = decided (same (str_eq es.state "above_horizon") up)
eval_sun up (err e) = undecided (reading sun_entity e)

abbrev pub flip : Verdict → Verdict
flip (undecided e) = undecided e
flip (decided b) = decided (not b)

-- `if undecided == nil { undecided = err }`.
abbrev pub first_error : Option EvalError → EvalError → Option EvalError
first_error none e = some e
first_error (some f) e = some f

-- What the loops return at their end.
abbrev pub or_undecided : Bool → Option EvalError → Verdict
or_undecided b none = decided b
or_undecided b (some e) = undecided e

-- The bodies of the two loops: an error is remembered and the loop goes on, a definite answer that
-- settles the whole ends it.
abbrev pub all_step : Verdict → Option EvalError → (Option EvalError → Verdict) → Verdict
all_step (undecided e) u rest = rest (first_error u e)
all_step (decided true) u rest = rest u
all_step (decided false) u rest = decided false

abbrev pub any_step : Verdict → Option EvalError → (Option EvalError → Verdict) → Verdict
any_step (undecided e) u rest = rest (first_error u e)
any_step (decided true) u rest = decided true
any_step (decided false) u rest = rest u

unfoldable mutual
  pub eval : Condition → EvalContext → Verdict
  eval (all cs) ec = eval_all cs none ec
  eval (any cs) ec = eval_any cs none ec
  eval (negation c) ec = flip (eval c ec)
  eval (state_is id states) ec = eval_state id states (ec.read id)
  eval (time_between start end) ec =
      decided
        (in_range (minute_of_day start) (minute_of_day end) (ec.now.hour * 60 + ec.now.minute))
  eval never ec = decided false
  eval (on_dates dates) ec = decided (on_any_date dates ec.now)
  eval (in_date_range start end) ec =
      decided (not (ltb ec.now.instant start.instant) && ltb ec.now.instant end.instant)
  eval (on_weekdays days) ec = decided (contains_day days ec.now.weekday)
  eval (sun_up up) ec = eval_sun up (ec.read sun_entity)
  eval (func f) ec = f ec

  -- The loop of `allCondition.Eval`, after the errors so far.
  pub eval_all : Conditions → Option EvalError → EvalContext → Verdict
  eval_all nil u ec = or_undecided true u
  eval_all (cons c cs) u ec = all_step (eval c ec) u (λ v. eval_all cs v ec)

  pub eval_any : Conditions → Option EvalError → EvalContext → Verdict
  eval_any nil u ec = or_undecided false u
  eval_any (cons c cs) u ec = any_step (eval c ec) u (λ v. eval_any cs v ec)
