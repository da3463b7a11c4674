-- ===== src/Core/Automation/Fire.antt =====
-- When `fire` of core/automation.go reaches the runner.
use go_ha.Prelude.{
  ℕ, String, ◌≡◌, refl, ap, ◌∙◌, Bool, true, false, Option, none, some, if◌then◌else◌,
}
use go_ha.Core.Condition.{EvalContext, Condition, Conditions, eval, Verdict, decided, undecided}
use go_ha.Core.Condition.Logic.{truth, meaning, meaning_all, kleene_and, eval-meaning}
use go_ha.Core.Policy.{Runner, run}
use go_ha.Core.Automation.{
  Automation, ConditionErrorPolicy, skip_run, run_anyway, combined, when, goes_on, permits, fire,
}

-- What the conditions of an automation come to; with none they hold.
abbrev pub outlook : Option Condition → EvalContext → Option Bool
outlook none ec = some true
outlook (some c) ec = meaning c ec

-- An unknown outlook counts as the automation says.
abbrev pub tolerates : ConditionErrorPolicy → Option Bool → Bool
tolerates skip_run none = false
tolerates run_anyway none = true
tolerates p (some b) = b

goes_on-truth : (p : ConditionErrorPolicy) (v : Verdict) → goes_on p v ≡ tolerates p (truth v)
goes_on-truth skip_run (undecided e) = refl
goes_on-truth run_anyway (undecided e) = refl
goes_on-truth skip_run (decided b) = refl
goes_on-truth run_anyway (decided b) = refl

allowed : (p : ConditionErrorPolicy) → true ≡ tolerates p (some true)
allowed skip_run = refl
allowed run_anyway = refl

permits-outlook :
    (a : Automation) (ec : EvalContext) (o : Option Condition)
    → permits a ec o ≡ tolerates a.on_condition_error (outlook o ec)
permits-outlook a ec none = allowed a.on_condition_error
permits-outlook a ec (some c) =
    goes_on-truth a.on_condition_error (eval c ec)
    ∙ ap (tolerates a.on_condition_error) (eval-meaning c ec)

-- An automation reaches its runner exactly when its conditions hold in Kleene's logic, or are unknown
-- and it is to run anyway; otherwise nothing is admitted and the runner is as before.
pub fire-outlook :
    (a : Automation) (ec : EvalContext) (now : ℕ) (key : String) (r : Runner)
    → fire a ec now key r ≡ (
        if tolerates a.on_condition_error (outlook a.condition ec)
        then run now key r
        else (r, false))
unfolding fire
fire-outlook a ec now key r = rw (permits-outlook a ec a.condition) refl

and-true : (b : Option Bool) → kleene_and b (some true) ≡ b
and-true none = refl
and-true (some true) = refl
and-true (some false) = refl

combined-outlook :
    (o : Option Condition) (cs : Conditions) (ec : EvalContext)
    → meaning (combined o cs) ec ≡ kleene_and (outlook o ec) (meaning_all cs ec)
unfolding meaning
combined-outlook none cs ec = refl
combined-outlook (some c) cs ec = ap (kleene_and (meaning c ec)) (and-true (meaning_all cs ec))

-- The conditions of all calls of `When` have to hold together.
pub when-outlook :
    (cs : Conditions) (a : Automation) (ec : EvalContext)
    → outlook (when cs a).condition ec ≡ kleene_and (outlook a.condition ec) (meaning_all cs ec)
unfolding when
when-outlook cs a ec = combined-outlook a.condition cs ec
