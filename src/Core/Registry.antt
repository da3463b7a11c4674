-- ===== src/Core/Registry.antt =====
-- core/automation_registry.go: which automations an event reaches. An automation is named by its
-- number; `dispatch` lists those whose `fire` is called, and callbacks of pending runs are those of
-- Core/Pending.antt. Schedule triggers go to Core/Scheduler.antt.
pub mod Dispatch
pub mod Subscribe
mod Tests
use go_ha.Prelude.{
  ℕ, zero, suc, ◌+◌, ◌-◌, ◌*◌, ◌/◌, ◌%◌, ◌^◌, ◌≤◌, ◌<◌, String, str_eq, eq_iff, eq_refl, ◌≡◌, refl,
  sym, ap, ◌∙◌, fun_ext, ◌≢◌, ◌↔◌, ◌⊎◌, inl, inr, Bool, true, false, not, ◌&&◌, ◌||◌, Option, none,
  some, List, [], ◌∷◌, ◌++◌, map, arith, ltb, leb, ◌==◌, if◌then◌else◌, Bool-cases, Option-cases,
  length, length-append, All, All-map, All-append, contains, is_empty, ltb→lt, ltb→le,
}
use go_ha.Prelude.{get_elem?, set}
use go_ha.Prelude.Dict.{lookup, insert}
use go_ha.Core.Event.{Event, Decoder, parse_event, state_changed, is_nil}
use go_ha.Core.Pending.{PendingRuns, new_pending_runs, arm, disarm}
use go_ha.Core.Trigger.{Trigger, state_change, matches, concerns, subscriptions}

-- `binding`; `pending` is the address of its pending runs.
pub record Binding : Type 0 where
  pub automation : ℕ
  pub trigger : Trigger
  pub pending : ℕ

-- `app.automations`, and the pending runs of all bindings.
pub record Registry : Type 0 where
  pub automations : List (String × List Binding)
  pub pendings : List PendingRuns

unfoldable pub new_registry : Registry
new_registry = record { automations = []; pendings = [] }

abbrev pub or_empty {ℓ} : {A : Type ℓ} → Option (List A) → List A
or_empty none = []
or_empty (some xs) = xs

-- The bindings of an event type.
abbrev pub bindings_of : String → List (String × List Binding) → List Binding
bindings_of type automations = or_empty (lookup type automations)

abbrev pub consed_if {ℓ} : {A : Type ℓ} → Bool → A → List A → List A
consed_if true x xs = x ∷ xs
consed_if false x xs = xs

-- The loop over the subscriptions: the map, and the event types not seen before.
pub bind_types :
    Binding
    → List String
    → List (String × List Binding)
    → List (String × List Binding) × List String
bind_types b [] automations = (automations, [])
bind_types b (type ∷ types) automations =
    let rest =
      bind_types b types (insert type (bindings_of type automations ++ b ∷ []) automations) in
    (rest.0, consed_if (is_nil (lookup type automations)) type rest.1)

-- The loop over the fresh types: `client.Subscribe` is called for each but state_changed.
pub requested : List String → List String
requested [] = []
requested (type ∷ fresh) =
    let rest = requested fresh in if str_eq type state_changed then rest else type ∷ rest

-- `subscribeAutomation`: the registry, and the event types asked of Home Assistant.
unfoldable pub subscribe_automation : ℕ → Trigger → Registry → Registry × List String
unfolding bind_types requested
subscribe_automation automation t r =
    let b : Binding = record {
      automation = automation;
      trigger = t;
      pending = length r.pendings;
    } in
    let found = bind_types b (subscriptions t) r.automations in
    (
      record { automations = found.0; pendings = r.pendings ++ new_pending_runs ∷ [] },
      requested found.1,
    )

-- The duration that a trigger has to hold; only state changes have one.
abbrev pub hold_for : Trigger → ℕ
hold_for (state_change t) = t.hold
hold_for _ = 0

abbrev pub concerned : Trigger → Event → Bool
concerned (state_change t) ev = concerns t ev
concerned _ ev = false

-- What an event does to a binding.
pub data Decision : Type 0 where
  arms disarms fires ignores : Decision

-- The body of the loop of `dispatchEvent` up to its effect.
unfoldable pub decide : Trigger → Event → Decision
decide t ev =
    if ltb 0 (hold_for t)
    then (if matches t ev
        then arms
        else if concerned t ev && not (str_eq ev.to.state ev.from.state)
        then disarms
        else ignores)
    else if matches t ev
    then fires
    else ignores

abbrev pub at_pending :
    Option PendingRuns → ℕ → (PendingRuns → PendingRuns) → List PendingRuns → List PendingRuns
at_pending none i f pendings = pendings
at_pending (some p) i f pendings = set pendings i (f p)

-- The effect: the pending runs, and the automation that fires.
pub carry_out : Decision → String → Binding → List PendingRuns → List PendingRuns × List ℕ
carry_out arms id b pendings =
    (at_pending (get_elem? pendings b.pending) b.pending (arm id) pendings, [])
carry_out disarms id b pendings =
    (at_pending (get_elem? pendings b.pending) b.pending (disarm id) pendings, [])
carry_out fires id b pendings = (pendings, b.automation ∷ [])
carry_out ignores id b pendings = (pendings, [])

pub visit : Event → List Binding → List PendingRuns → List PendingRuns × List ℕ
unfolding carry_out
visit ev [] pendings = (pendings, [])
visit ev (b ∷ bs) pendings =
    let first = carry_out (decide b.trigger ev) ev.entity_id b pendings in
    let rest = visit ev bs first.0 in (rest.0, first.1 ++ rest.1)

abbrev pub dispatch_parsed : Event → Registry → Registry × List ℕ
dispatch_parsed ev r =
    let seen = visit ev (bindings_of ev.type r.automations) r.pendings in
    if str_eq ev.type "" then (r, []) else (record r { pendings = seen.0 }, seen.1)

-- `dispatchEvent`.
unfoldable pub dispatch_event : Decoder → String → Registry → Registry × List ℕ
unfolding visit
dispatch_event d raw r = dispatch_parsed (parse_event d raw) r
