-- ===== src/Core/Lifecycle/Gate.antt =====
-- core/app.go: nothing fires before Start, Start succeeds once, and nothing happens after Close.
use mathlib.Core.Path.{subst}
use go_ha.Prelude.{
  ℕ, String, ◌≡◌, refl, sym, ap, ◌∙◌, inl, inr, Bool, true, false, not, Option, none, some, List,
  [], ◌∷◌, arith, Bool-cases, ◌==◌, if◌then◌else◌, All, All-append, map,
}
use go_ha.Core.Event.{Decoder}
use go_ha.Core.Pending.{PendingRuns, new_pending_runs, stop, stop_all}
use go_ha.Core.Trigger.{Trigger}
use go_ha.Core.Registry.{new_registry, subscribe_automation}
use go_ha.Core.Scheduler.{PriorityQueue, Triggers, refresh}
use go_ha.Core.Lifecycle.{
  App, new_app, refresh_sun_schedules, dispatch, on_event, on_state_changed, on_wire, start,
  register, Started, cancel, close_client, stop_pending, Action, wires, handles, handles_state,
  starts_up, registers, cancels, closes, stops, act, Reach, begin, step,
}

module _ (d : Decoder) (w : PriorityQueue) (env : Triggers) (mentions_sun : String → Bool) where
  -- No timer is armed, and no wait has begun.
  abbrev pub Idle : PendingRuns → Type 0
  Idle p = (p.timers ≡ []) × (p.waits ≡ [])

  pub record Gated (app : App w) : Type 0 where
    pub quiet : app.started ≡ false → (app.fired ≡ []) × All Idle app.registry.pendings
    pub claimed : app.started ≡ true → app.starting ≡ true
    pub once : app.starts ≡ (if app.started then 1 else 0)

  either :
      (b : Bool) (x y : App w)
      → (b ≡ true → Gated x)
      → (b ≡ false → Gated y)
      → Gated (if b then x else y)
  either true x y f g = f refl
  either false x y f g = g refl

  first_of :
      (b : Bool) (x y : App w × Started)
      → (b ≡ true → Gated x.0)
      → (b ≡ false → Gated y.0)
      → Gated (if b then x else y).0
  first_of true x y f g = f refl
  first_of false x y f g = g refl

  undenied : (b : Bool) → not b ≡ false → b ≡ true
  undenied true h = refl
  undenied false h = cc

  not_started : (app : App w) → Gated app → app.starting ≡ false → app.started ≡ false
  not_started app v h = elim (Bool-cases app.started) [
    | inl s ↦ let clash : true ≡ false = sym (v.claimed s) ∙ h in cc
    | inr s ↦ s
  ]

  new_app-Gated : Gated (new_app d w env mentions_sun)
  unfolding new_app new_registry
  new_app-Gated = record { quiet = λ h. (refl, tt); claimed = λ h. cc; once = refl }

  dispatch-Gated :
      (raw : String) (app : App w)
      → app.started ≡ true
      → Gated app
      → Gated (dispatch d w env mentions_sun raw app)
  unfolding dispatch
  dispatch-Gated raw app s v = record { quiet = λ h. cc; claimed = v.claimed; once = v.once }

  refresh-Gated :
      (now : ℕ) (raw : String) (app : App w)
      → Gated app
      → Gated (refresh_sun_schedules d w env mentions_sun now raw app)
  unfolding refresh_sun_schedules
  refresh-Gated now raw app v =
      either (not (mentions_sun raw)) app _ (λ t. v)
        (λ t.
          either ((refresh w env now app.schedules).1 == 0) _ _
            (λ t. record { quiet = v.quiet; claimed = v.claimed; once = v.once })
            (λ t. record { quiet = v.quiet; claimed = v.claimed; once = v.once }))

  on_event-Gated :
      (raw : String) (app : App w) → Gated app → Gated (on_event d w env mentions_sun raw app)
  unfolding on_event
  on_event-Gated raw app v =
      either (not app.started) app _ (λ h. v)
        (λ h. dispatch-Gated raw app (undenied app.started h) v)

  on_state_changed-Gated :
      (now : ℕ) (raw : String) (app : App w)
      → Gated app
      → Gated (on_state_changed d w env mentions_sun now raw app)
  unfolding on_state_changed
  on_state_changed-Gated now raw app v =
      let r = refresh_sun_schedules d w env mentions_sun now raw app in
      either r.started (dispatch d w env mentions_sun raw r) r
        (λ h. dispatch-Gated raw r h (refresh-Gated now raw app v))
        (λ h. refresh-Gated now raw app v)

  start-Gated : (app : App w) → Gated app → Gated (start d w env mentions_sun app).0
  unfolding start
  start-Gated app v =
      first_of app.starting _ _ (λ h. v)
        (λ h.
          first_of app.cancelled _ _
            (λ c. record { quiet = v.quiet; claimed = λ s. refl; once = v.once })
            (λ c.
              let unstarted = not_started app v h in
              record {
                quiet = λ s. cc;
                claimed = λ s. refl;
                once = ground (arith, v.once, unstarted);
              }))

  register-Gated :
      (n : ℕ) (t : Trigger) (app : App w)
      → Gated app
      → Gated (register d w env mentions_sun n t app)
  unfolding register subscribe_automation new_pending_runs
  register-Gated n t app v = record {
    quiet = λ h. (
      (v.quiet h).0,
      All-append Idle app.registry.pendings (new_pending_runs ∷ []) (v.quiet h).1
          ((refl, refl), tt),
    );
    claimed = v.claimed;
    once = v.once;
  }

  stop-Idle : (ps : List PendingRuns) → All Idle ps → All Idle (map stop ps)
  unfolding stop
  stop-Idle [] i = tt
  stop-Idle (p ∷ ps) (i, is) = ((refl, ap (λ ts. stop_all ts p.waits) i.0 ∙ i.1), stop-Idle ps is)

  Kept : Option (App w) → Type 0
  Kept none = Unit {0}
  Kept (some app) = Gated app

  unless : (b : Bool) (app : App w) → Gated app → Kept (if b then none else some app)
  unfolding Kept
  unless true app v = tt
  unless false app v = v

  when : (b : Bool) (app : App w) → Gated app → Kept (if b then some app else none)
  unfolding Kept
  when true app v = v
  when false app v = tt

  act-Kept :
      (a : Action d w env mentions_sun) (app : App w)
      → Gated app
      → Kept (act d w env mentions_sun a app)
  unfolding act Kept on_wire cancel close_client stop_pending
  act-Kept (wires raw) app v =
      unless app.client_closed _ (record { quiet = v.quiet; claimed = v.claimed; once = v.once })
  act-Kept (handles raw) app v = unless app.client_closed _ (on_event-Gated raw app v)
  act-Kept (handles_state now raw) app v =
      unless app.client_closed _ (on_state_changed-Gated now raw app v)
  act-Kept starts_up app v = start-Gated app v
  act-Kept (registers n t) app v = register-Gated n t app v
  act-Kept cancels app v = record { quiet = v.quiet; claimed = v.claimed; once = v.once }
  act-Kept closes app v =
      when app.cancelled _ (record { quiet = v.quiet; claimed = v.claimed; once = v.once })
  act-Kept stops app v = when app.client_closed _ (record {
    quiet = λ h. ((v.quiet h).0, stop-Idle app.registry.pendings (v.quiet h).1);
    claimed = v.claimed;
    once = v.once;
  })

  -- On every state that the application reaches, whatever events arrive and whenever: before Start no
  -- automation has fired, no timer of a pending run is armed and no wait has begun; and at most one call of
  -- Start went on instead of returning ErrNotRunning, and the application is started just when one did.
  pub Reach-Gated : {app : App w} → Reach d w env mentions_sun app → Gated app
  unfolding Kept
  Reach-Gated begin = new_app-Gated
  Reach-Gated (step {app = app} a r e) = subst Kept e (act-Kept a app (Reach-Gated r))
