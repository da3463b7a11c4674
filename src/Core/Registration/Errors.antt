-- ===== src/Core/Registration/Errors.antt =====
-- Which registrations of core/automation_registry.go report an error.
use go_ha.Prelude.{
  ℕ, ◌+◌, String, ◌≡◌, refl, ◌≢◌, ◌↔◌, ap, ◌∙◌, arith, Bool, true, false, not, Option, none, some,
  List, [], ◌∷◌, ◌++◌, if◌then◌else◌, All,
}
use go_ha.Prelude.{all_of, then_iff, none_of, All-iff}
use go_ha.Core.Event.{EntityState}
use go_ha.Core.State.{Result}
use go_ha.Core.Policy.{Runner}
use go_ha.Core.Automation.{Automation}
use go_ha.Core.Registry.{consed_if}
use go_ha.Core.Scheduler.{PriorityQueue, Scheduler, add, enqueue}
use mathlib.Core.Path.{subst}
use go_ha.Core.Condition.{sun_entity}
use go_ha.Core.Trigger.{
  schedule, startup, sun, state_change, event_type, has_fired, startup_next, sun_time, published,
  Trigger, next_time, is_schedule, is_dynamic,
}
use go_ha.Core.Registration.{
  RegisterError, not_built, no_next_occurrence, subscribe_failed, App, Registered, failures,
  register_trigger, register_triggers, if_built, register_automations, Recurs, fires, fires_all,
  AllRecur, Registrable,
}
use go_ha.Scheduling.{Calendar}

consed_iff {ℓ} :
    {A : Type ℓ} (b : Bool) (x : A) (xs : List A)
    → (consed_if (not b) x xs ≡ []) ↔ ((b ≡ true) × (xs ≡ []))
consed_iff true x xs = (λ h. (refl, h), λ h. h.1)
consed_iff false x xs = (λ h. cc, λ h. cc)

failures-none :
    (accepts : String → Bool) (types : List String)
    → (failures accepts types ≡ []) ↔ All (λ type. accepts type ≡ true) types
unfolding failures
failures-none accepts [] = (λ h. tt, λ h. refl)
failures-none accepts (type ∷ types) =
    then_iff (consed_iff (accepts type) (subscribe_failed type) (failures accepts types))
      (all_of (λ x. x, λ x. x) (failures-none accepts types))

swap_middle {a b c d} :
    {A : Type a} {B : Type b} {C : Type c} {D : Type d} → ((A × B) × (C × D)) ↔ ((A × C) × (B × D))
swap_middle = (λ ((x, y), (z, v)). ((x, z), (y, v)), λ ((x, z), (y, v)). ((x, y), (z, v)))

module _ (w : PriorityQueue) (c : Calendar) (parse : String → Option ℕ)
    (read : String → Result EntityState) (accepts : String → Bool) (now : ℕ) where
  -- Nothing went wrong exactly if `P` holds and what was asked for was accepted.
  abbrev Reports : Type 0 → Registered w → Type 0
  Reports P (app, errs, asked) = (errs ≡ []) ↔ (P × All (λ type. accepts type ≡ true) asked)

  both-Reports :
      (P Q : Type 0) (app : App w) (errs errs' : List RegisterError) (asked asked' : List String)
      → (errs ≡ []) ↔ (P × All (λ type. accepts type ≡ true) asked)
      → (errs' ≡ []) ↔ (Q × All (λ type. accepts type ≡ true) asked')
      → Reports (P × Q) (app, errs ++ errs', asked ++ asked')
  both-Reports P Q app errs errs' asked asked' f g = then_iff (none_of errs errs') (
      then_iff (all_of f g) (
        then_iff swap_middle (
          all_of (λ x. x, λ x. x)
            (
              (All-iff (λ type. accepts type ≡ true) asked asked').1,
              (All-iff (λ type. accepts type ≡ true) asked asked').0,
            ))))

  -- What failed already fails, whatever comes after it.
  failed-Reports :
      (P Q : Type 0) (app : App w) (errs errs' : List RegisterError) (asked asked' : List String)
      → errs ≢ []
      → ¬ P
      → Reports (P × Q) (app, errs ++ errs', asked ++ asked')
  failed-Reports P Q app errs errs' asked asked' f g =
      (λ h. absurd (f ((none_of errs errs').0 h).0), λ h. absurd (g h.0.0))

  queued_iff :
      (o : Option ℕ) (dynamic : Bool) (s : Scheduler w)
      → ((enqueue w o dynamic s).1 ≡ true) ↔ (o ≢ none)
  queued_iff none dynamic s = (λ h. cc, λ h. absurd (h refl))
  queued_iff (some n) dynamic s = (λ h. λ e. cc, λ h. refl)

  sun_iff : (offset : ℕ) (o : Option ℕ) → (sun_time c offset now o ≢ none) ↔ (o ≢ none)
  sun_iff offset none = (λ h. h, λ h. h)
  sun_iff offset (some t) = (λ h e. cc, λ h. ground arith)

  startup_iff :
      (address : ℕ) (fired : List ℕ) (b : Bool)
      → has_fired address fired ≡ b
      → ((startup_next address fired now).1 ≢ none) ↔ (has_fired address fired ≡ false)
  startup_iff address fired true h = rw h (λ k. absurd (k refl), λ k. cc)
  startup_iff address fired false h = rw h (λ k. refl, λ k e. cc)

  -- A schedule trigger answers exactly where it recurs.
  answers_iff :
      (fired : List ℕ) (t : Trigger)
      → is_schedule t ≡ true
      → ((next_time c parse read fired t now).1 ≢ none) ↔ Recurs w c parse read accepts now fired t
  unfolding next_time
  answers_iff fired (schedule none) e = (λ h. absurd (h refl), λ h. absurd h)
  answers_iff fired (schedule (some t)) e = (λ h. h, λ h. h)
  answers_iff fired (startup address) e = startup_iff address fired _ refl
  answers_iff fired (sun event offset) e = sun_iff offset (published parse event (read sun_entity))
  answers_iff fired (state_change t) e = cc
  answers_iff fired (event_type types) e = cc

  others_recur :
      (fired : List ℕ) (t : Trigger)
      → is_schedule t ≡ false
      → Recurs w c parse read accepts now fired t
  others_recur fired (schedule o) e = cc
  others_recur fired (startup address) e = cc
  others_recur fired (sun event offset) e = cc
  others_recur fired (state_change t) e = tt
  others_recur fired (event_type types) e = tt

  chosen-Reports :
      (fired : List ℕ) (t : Trigger) (s q : Bool) (left right : App w) (types : List String)
      → is_schedule t ≡ s
      → (q ≡ true) ↔ ((next_time c parse read fired t now).1 ≢ none)
      → Reports (Recurs w c parse read accepts now fired t) (
          if s
          then (left, consed_if (not q) no_next_occurrence [], [])
          else (right, failures accepts types, types))
  chosen-Reports fired t true q left right types e f =
      then_iff (consed_iff q no_next_occurrence []) (
        λ h. ((answers_iff fired t e).0 (f.0 h.0), tt),
        λ h. (f.1 ((answers_iff fired t e).1 h.0), refl),
      )
  chosen-Reports fired t false q left right types e f =
      then_iff (failures-none accepts types) (λ h. (others_recur fired t e, h), λ h. h.1)

  register_trigger-Reports :
      (a : ℕ) (t : Trigger) (app : App w)
      → Reports
          (Recurs w c parse read accepts now app.fired t)
          (register_trigger w c parse read accepts now a t app)
  unfolding register_trigger add
  register_trigger-Reports a t app =
      chosen-Reports app.fired t (is_schedule t) _ _ _ _ refl
        (queued_iff (next_time c parse read app.fired t now).1 (is_dynamic t) app.scheduler)

  register_trigger-fired :
      (a : ℕ) (t : Trigger) (app : App w)
      → (register_trigger w c parse read accepts now a t app).0.fired
        ≡ fires w c parse read accepts now t app.fired
  unfolding register_trigger next_time
  register_trigger-fired a (schedule none) app = refl
  register_trigger-fired a (schedule (some t)) app = refl
  register_trigger-fired a (startup address) app = ground arith
  register_trigger-fired a (sun event offset) app = refl
  register_trigger-fired a (state_change t) app = refl
  register_trigger-fired a (event_type types) app = refl

  register_triggers-fired :
      (a : ℕ) (ts : List Trigger) (app : App w)
      → (register_triggers w c parse read accepts now a ts app).0.fired
        ≡ fires_all w c parse read accepts now ts app.fired
  unfolding register_triggers
  register_triggers-fired a [] app = refl
  register_triggers-fired a (t ∷ ts) app =
      register_triggers-fired a ts (register_trigger w c parse read accepts now a t app).0
      ∙ ap (fires_all w c parse read accepts now ts) (register_trigger-fired a t app)

  register_triggers-Reports :
      (a : ℕ) (ts : List Trigger) (app : App w)
      → Reports
          (AllRecur w c parse read accepts now app.fired ts)
          (register_triggers w c parse read accepts now a ts app)
  unfolding register_triggers
  register_triggers-Reports a [] app = (λ h. (tt, tt), λ h. refl)
  register_triggers-Reports a (t ∷ ts) app =
      let one = register_trigger w c parse read accepts now a t app in
      both-Reports _ _ app _ _ _ _ (register_trigger-Reports a t app) (
        subst
          (λ fired.
            Reports (AllRecur w c parse read accepts now fired ts)
              (register_triggers w c parse read accepts now a ts one.0))
          (register_trigger-fired a t app) (register_triggers-Reports a ts one.0))

  -- Registering automations reports no error exactly when each of them was built, each of their schedule
  -- triggers has a next instant when its turn comes, and Home Assistant accepts each event type asked of
  -- it. A startup trigger has a next instant only the first time that it is registered.
  pub register_automations-Reports :
      (a : ℕ) (automations : List Automation) (app : App w)
      → ((register_automations w c parse read accepts now a automations app).1 ≡ []) ↔ (
          Registrable w c parse read accepts now app.fired automations
          × All
              (λ type. accepts type ≡ true)
              (register_automations w c parse read accepts now a automations app).2)
  unfolding register_automations
  register_automations-Reports a [] app = (λ h. (tt, tt), λ h. refl)
  register_automations-Reports a (automation ∷ more) app =
      by_runtime automation.runtime refl (register_automations-Reports (a + 1) more)
    where
      by_runtime :
          (o : Option Runner)
          → automation.runtime ≡ o
          → ((next : App w)
              → Reports
                  (Registrable w c parse read accepts now next.fired more)
                  (register_automations w c parse read accepts now (a + 1) more next))
          → Reports (Registrable w c parse read accepts now app.fired (automation ∷ more)) (
              let one = if_built w c parse read accepts now a automation o app in
              let rest = register_automations w c parse read accepts now (a + 1) more one.0 in
              (rest.0, one.1 ++ rest.1, one.2 ++ rest.2))
      by_runtime none e later =
          failed-Reports _ _ app (not_built ∷ []) _ [] _ (λ (h : not_built ∷ [] ≡ []). cc)
            (λ h. h.0 e)
      by_runtime (some r) e later =
          let one = register_triggers w c parse read accepts now a automation.triggers app in
          both-Reports _ _ app _ _ _ _
            (then_iff (register_triggers-Reports a automation.triggers app)
              (λ h. ((λ k. cc, h.0), h.1), λ h. (h.0.1, h.1)))
            (subst
              (λ fired.
                Reports (Registrable w c parse read accepts now fired more)
                  (register_automations w c parse read accepts now (a + 1) more one.0))
              (register_triggers-fired a automation.triggers app) (later one.0))
