-- ===== src/Core/Lifecycle.antt =====
-- core/app.go: what the application does with the events of its client, from its construction to the end
-- of Close. Each step is what one goroutine does at once; the steps interleave in any order. The decoder
-- of JSON, the priority queue, the triggers, the clock and the search of `bytesMentionSunEntity` are
-- parameters. A waiting run that elapses is left to the pending runs, and a fired automation to its runner.
pub mod Gate
mod Tests
use go_ha.Prelude.{
  ℕ, String, Bool, true, false, not, ◌&&◌, ◌||◌, Option, none, some, List, [], ◌∷◌, ◌++◌, ◌+◌, ◌≡◌,
  map, ◌==◌, if◌then◌else◌,
}
use go_ha.Core.Event.{Decoder}
use go_ha.Core.Cache.{EntityCache, new_entity_cache}
use go_ha.Core.State.{apply_event}
use go_ha.Core.Pending.{stop}
use go_ha.Core.Trigger.{Trigger}
use go_ha.Core.Registry.{Registry, new_registry, subscribe_automation, dispatch_event}
use go_ha.Core.Scheduler.{PriorityQueue, Scheduler, new_scheduler, Triggers, refresh}

-- `App`, with the history of the automations that fired (newest first) and of the calls of Start that did
-- not return ErrNotRunning. `rescheduled` is the channel of that name, which holds at most one wake.
pub record App (w : PriorityQueue) : Type 0 where
  pub cancelled : Bool
  pub client_closed : Bool
  pub pending_stopped : Bool
  pub starting : Bool
  pub started : Bool
  pub cache : EntityCache
  pub registry : Registry
  pub schedules : Scheduler w
  pub rescheduled : Bool
  pub fired : List ℕ
  pub starts : ℕ

-- What Start goes on to: the loops run, or ErrNotRunning.
pub data Started : Type 0 where
  runs : Started
  not_running : Started

module _ (d : Decoder) (w : PriorityQueue) (env : Triggers) (mentions_sun : String → Bool) where
  -- The end of `NewApp`.
  unfoldable pub new_app : App w
  new_app = record {
    cancelled = false;
    client_closed = false;
    pending_stopped = false;
    starting = false;
    started = false;
    cache = new_entity_cache;
    registry = new_registry;
    schedules = new_scheduler w;
    rescheduled = false;
    fired = [];
    starts = 0;
  }

  -- `refreshSunSchedules` at an instant.
  unfoldable pub refresh_sun_schedules : ℕ → String → App w → App w
  refresh_sun_schedules now raw app =
      if not (mentions_sun raw)
      then app
      else (let (moved, count) = refresh w env now app.schedules in
          if count == 0
          then record app { schedules = moved }
          else record app { schedules = moved; rescheduled = true })

  -- The call of `dispatchEvent`.
  unfoldable pub dispatch : String → App w → App w
  dispatch raw app =
      let (registry, fired) = dispatch_event d raw app.registry in
      record app { registry = registry; fired = fired ++ app.fired }

  -- `onEvent`.
  unfoldable pub on_event : String → App w → App w
  unfolding dispatch
  on_event raw app = if not app.started then app else dispatch raw app

  -- `onStateChanged`.
  unfoldable pub on_state_changed : ℕ → String → App w → App w
  unfolding refresh_sun_schedules dispatch
  on_state_changed now raw app =
      let refreshed = refresh_sun_schedules now raw app in
      if refreshed.started then dispatch raw refreshed else refreshed

  -- `OnEvent` of the client's options: the cache, on the reader.
  unfoldable pub on_wire : String → App w → App w
  on_wire raw app = record app { cache = apply_event d raw app.cache }

  -- `Start`, up to the wait for its end.
  unfoldable pub start : App w → App w × Started
  start app =
      if app.starting
      then (app, not_running)
      else if app.cancelled
      then (record app { starting = true }, not_running)
      else (record app { starting = true; started = true; starts = app.starts + 1 }, runs)

  -- What RegisterAutomations does with an event trigger.
  unfoldable pub register : ℕ → Trigger → App w → App w
  register automation t app = record app {
    registry = (subscribe_automation automation t app.registry).0;
  }

  -- `Close` in its three parts: the context is cancelled, which Start does as well when the client gives
  -- up; the client is closed, which waits for its reader and its workers; the pending runs are stopped.
  unfoldable pub cancel : App w → App w
  cancel app = record app { cancelled = true }

  unfoldable pub close_client : App w → App w
  close_client app = record app { client_closed = true }

  unfoldable pub stop_pending : App w → App w
  stop_pending app = record app {
    pending_stopped = true;
    registry = record app.registry { pendings = map stop app.registry.pendings };
  }

  pub data Action : Type 0 where
    wires : String → Action
    handles : String → Action
    handles_state : ℕ → String → Action
    starts_up : Action
    registers : ℕ → Trigger → Action
    cancels closes stops : Action

  -- The reader and the workers are gone once the client is closed.
  unfoldable pub act : Action → App w → Option (App w)
  unfolding on_event on_state_changed on_wire start register cancel close_client stop_pending
  act (wires raw) app = if app.client_closed then none else some (on_wire raw app)
  act (handles raw) app = if app.client_closed then none else some (on_event raw app)
  act (handles_state now raw) app =
      if app.client_closed then none else some (on_state_changed now raw app)
  act starts_up app = some (start app).0
  act (registers automation t) app = some (register automation t app)
  act cancels app = some (cancel app)
  act closes app = if app.cancelled then some (close_client app) else none
  act stops app = if app.client_closed then some (stop_pending app) else none

  pub data Reach : App w → Type 0 where
    begin : Reach new_app
    step : {app next : App w} (a : Action) → Reach app → act a app ≡ some next → Reach next
