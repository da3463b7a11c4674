-- ===== src/Core/Lifecycle/Tests.antt =====
-- An application with one automation, which is told of a doorbell before and after it is started.
use go_ha.Prelude.{refl, false, Option, none, some, List, [], ◌∷◌}
use go_ha.Prelude.Dict.{lookup, insert}
use go_ha.Core.Event.{Decoder, parse_event}
use go_ha.Core.Pending.{new_pending_runs}
use go_ha.Core.Trigger.{event_type}
use go_ha.Core.Registry.{new_registry, subscribe_automation, dispatch_event, decide}
use go_ha.Core.Scheduler.{Triggers}
use go_ha.Core.Scheduler.Samples.{list_queue}
use go_ha.Core.Lifecycle.{
  App, new_app, on_event, start, register, cancel, close_client, stop_pending, Action, handles,
  starts_up, registers, cancels, closes, act, Reach, begin, step,
}
use go_ha.Core.Lifecycle.Gate.{Gated, Reach-Gated}

abbrev bell : Decoder
bell = record {
  envelope = λ b. some "doorbell";
  payload = λ b. none;
  entity = λ b. none;
  entities = λ b. none;
}

abbrev env : Triggers
env id after = none

abbrev quiet : App list_queue
quiet = new_app bell list_queue env (λ raw. false)

-- One action after another, where each may happen.
abbrev act_all :
    List (Action bell list_queue env (λ raw. false))
    → Option (App list_queue)
    → Option (App list_queue)
act_all [] o = o
act_all (a ∷ rest) none = none
act_all (a ∷ rest) (some app) = act_all rest (act bell list_queue env (λ raw. false) a app)

abbrev actions : List (Action bell list_queue env (λ raw. false))
actions =
    registers 5 (event_type ("doorbell" ∷ []))
    ∷ handles "{}"
    ∷ starts_up
    ∷ handles "{}"
    ∷ cancels
    ∷ closes
    ∷ []

abbrev state_of : Option (App list_queue) → App list_queue
state_of none = quiet
state_of (some app) = app

abbrev closed : App list_queue
closed = state_of (act_all actions (some quiet))

closed-Reach : Reach bell list_queue env (λ raw. false) closed
unfolding act new_app on_event start register cancel close_client stop_pending subscribe_automation
    new_registry dispatch_event decide parse_event lookup insert new_pending_runs
closed-Reach =
    step closes
      (step cancels
        (step (handles "{}")
          (step starts_up
            (step (handles "{}") (step (registers 5 (event_type ("doorbell" ∷ []))) begin refl)
              refl)
            refl)
          refl)
        refl)
      refl

Reach-Gated_example : Gated bell list_queue env (λ raw. false) closed
Reach-Gated_example = Reach-Gated bell list_queue env (λ raw. false) closed-Reach
