-- ===== src/Core/Registration.antt =====
-- `RegisterAutomations` and `scheduleAutomation` of core/automation_registry.go: a schedule trigger
-- goes to the scheduler, an event trigger to the registry. Whether `client.Subscribe` accepts an event
-- type is a parameter, and so is the clock's reading. No trigger here is of both families or neither,
-- so those errors do not arise.
pub mod Errors
mod Tests
use go_ha.Prelude.{
  ℕ, zero, suc, ◌+◌, ◌-◌, ◌*◌, ◌/◌, ◌%◌, ◌^◌, ◌≤◌, ◌<◌, String, str_eq, eq_iff, eq_refl, ◌≡◌, refl,
  sym, ap, ◌∙◌, fun_ext, ◌≢◌, ◌↔◌, ◌⊎◌, inl, inr, Bool, true, false, not, ◌&&◌, ◌||◌, Option, none,
  some, List, [], ◌∷◌, ◌++◌, map, arith, ltb, leb, ◌==◌, if◌then◌else◌, Bool-cases, Option-cases,
  length, length-append, All, All-map, All-append, contains, is_empty, ltb→lt, ltb→le,
}
use go_ha.Core.Event.{EntityState}
use go_ha.Core.State.{Result}
use go_ha.Core.Policy.{Runner}
use go_ha.Core.Automation.{Automation}
use go_ha.Core.Registry.{Registry, subscribe_automation, consed_if}
use go_ha.Core.Scheduler.{PriorityQueue, Scheduler, Triggers, add, enqueue}
use go_ha.Core.Condition.{sun_entity}
use go_ha.Core.Trigger.{
  schedule, startup, sun, state_change, event_type, has_fired, inner_next, published, Trigger,
  next_time, is_schedule, is_dynamic,
}
use go_ha.Scheduling.{Calendar}

pub data RegisterError : Type 0 where
  not_built no_next_occurrence : RegisterError
  subscribe_failed : String → RegisterError

-- The part of `App` that registration touches; `scheduled` says what the scheduler's entries run. With
-- it, the startup triggers that have fired, by their addresses: two automations may share one.
pub record App (w : PriorityQueue) : Type 0 where
  pub registry : Registry
  pub scheduler : Scheduler w
  pub scheduled : List (ℕ × ℕ × Trigger)
  pub fired : List ℕ

-- What a registration leaves: the app, the errors, and the event types asked for.
abbrev pub Registered : PriorityQueue → Type 0
Registered w = App w × List RegisterError × List String

-- The errors of `client.Subscribe`.
unfoldable pub failures : (String → Bool) → List String → List RegisterError
failures accepts [] = []
failures accepts (type ∷ types) =
    consed_if (not (accepts type)) (subscribe_failed type) (failures accepts types)

module _ (w : PriorityQueue) (c : Calendar) (parse : String → Option ℕ)
    (read : String → Result EntityState) (accepts : String → Bool) (now : ℕ) where
  -- `scheduleAutomation`.
  unfoldable pub schedule_automation : ℕ → Trigger → App w → App w × Bool
  schedule_automation a t app =
      let queued =
        add w (λ id after. (next_time c parse read app.fired t after).1) now (is_dynamic t)
          app.scheduler in
      (
        record app {
          scheduler = queued.0;
          scheduled = consed_if queued.1 (app.scheduler.next_id, a, t) app.scheduled;
          fired = (next_time c parse read app.fired t now).0;
        },
        queued.1,
      )

  -- One round of the loop over the triggers.
  unfoldable pub register_trigger : ℕ → Trigger → App w → Registered w
  unfolding schedule_automation failures
  register_trigger a t app =
      let queued = schedule_automation a t app in
      let bound = subscribe_automation a t app.registry in
      if is_schedule t
      then (queued.0, consed_if (not queued.1) no_next_occurrence [], [])
      else (record app { registry = bound.0 }, failures accepts bound.1, bound.1)

  unfoldable pub register_triggers : ℕ → List Trigger → App w → Registered w
  unfolding register_trigger
  register_triggers a [] app = (app, [], [])
  register_triggers a (t ∷ ts) app =
      let (app', errs, asked) = register_trigger a t app in
      let (app'', errs', asked') = register_triggers a ts app' in
      (app'', errs ++ errs', asked ++ asked')

  abbrev pub if_built : ℕ → Automation → Option Runner → App w → Registered w
  if_built a automation none app = (app, not_built ∷ [], [])
  if_built a automation (some r) app = register_triggers a automation.triggers app

  -- `RegisterAutomations`, of automations numbered from `a`.
  unfoldable pub register_automations : ℕ → List Automation → App w → Registered w
  unfolding register_triggers
  register_automations a [] app = (app, [], [])
  register_automations a (automation ∷ more) app =
      let (app', errs, asked) = if_built a automation automation.runtime app in
      let (app'', errs', asked') = register_automations (a + 1) more app' in
      (app'', errs ++ errs', asked ++ asked')

  -- A schedule trigger has a next instant when it is registered: a constructor's error has none, a startup
  -- trigger has one until it has fired, and a sun trigger where the time of its event can be read.
  abbrev pub Recurs : List ℕ → Trigger → Type 0
  Recurs fired (schedule none) = ⊥
  Recurs fired (schedule (some t)) = inner_next c t now ≢ none
  Recurs fired (startup address) = has_fired address fired ≡ false
  Recurs fired (sun event offset) = published parse event (read sun_entity) ≢ none
  Recurs fired (state_change t) = Unit {0}
  Recurs fired (event_type types) = Unit {0}

  -- The startup triggers that have fired once the trigger has been asked.
  abbrev pub fires : Trigger → List ℕ → List ℕ
  fires (startup address) fired = if has_fired address fired then fired else address ∷ fired
  fires _ fired = fired

  abbrev pub fires_all : List Trigger → List ℕ → List ℕ
  fires_all [] fired = fired
  fires_all (t ∷ ts) fired = fires_all ts (fires t fired)

  -- Each trigger recurs when its turn comes.
  abbrev pub AllRecur : List ℕ → List Trigger → Type 0
  AllRecur fired [] = Unit {0}
  AllRecur fired (t ∷ ts) = Recurs fired t × AllRecur (fires t fired) ts

  -- Each automation was built, and its triggers recur when their turn comes.
  abbrev pub Registrable : List ℕ → List Automation → Type 0
  Registrable fired [] = Unit {0}
  Registrable fired (a ∷ more) =
      ((a.runtime ≢ none) × AllRecur fired a.triggers)
      × Registrable (fires_all a.triggers fired) more
