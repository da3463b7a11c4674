-- ===== src/Core/Trigger.antt =====
-- core/trigger.go, core/trigger_event.go and the sun trigger of core/sun.go. A trigger of the user's
-- own, and the labels, are left out. The calendar is the carbon library's and the standard library's,
-- and so is the reading of an RFC 3339 time: both are parameters.
use go_ha.Prelude.{
  ℕ, String, str_eq, Bool, true, false, not, ◌&&◌, ◌||◌, ◌==◌, Option, none, some, List, [], ◌∷◌,
  ltb, if◌then◌else◌, contains, is_empty,
}
use go_ha.Core.Event.{AnyValue, text, other, EntityState, Event, state_changed}
use go_ha.Core.State.{Result, ok, err}
use go_ha.Core.Condition.{sun_entity}
use go_ha.Core.Condition.Clock.{ClockTime}
use go_ha.Prelude.Dict.{lookup}
use go_ha.Scheduling.{
  Calendar, FixedTimeTrigger, fixed_next, CronTrigger, cron_next, IntervalTrigger,
  new_interval_trigger, interval_next, add_duration,
}

pub data SunEvent : Type 0 where
  rising setting dawn dusk : SunEvent

-- `attribute`.
abbrev pub attribute : SunEvent → String
attribute setting = "next_setting"
attribute dawn = "next_dawn"
attribute dusk = "next_dusk"
attribute rising = "next_rising"

-- The triggers of internal/scheduling.
pub data Inner : Type 0 where
  fixed : FixedTimeTrigger → Inner
  interval : IntervalTrigger → Inner
  cron : CronTrigger → Inner

pub record StateChangeTrigger : Type 0 where
  pub entity_ids : List String
  pub from : String
  pub to : String
  pub hold : ℕ

-- `StateChanged`, and the stages that narrow it.
abbrev pub on_change : List String → StateChangeTrigger
on_change ids = record { entity_ids = ids; from = ""; to = ""; hold = 0 }

abbrev pub from_state : String → StateChangeTrigger → StateChangeTrigger
from_state state t = record t { from = state }

abbrev pub to_state : String → StateChangeTrigger → StateChangeTrigger
to_state state t = record t { to = state }

abbrev pub held_for : ℕ → StateChangeTrigger → StateChangeTrigger
held_for d t = record t { hold = d }

-- The triggers of both families. A schedule without an inner trigger holds the error of its
-- constructor; a startup trigger is a pointer, and holds its address; an offset is an int64's bit pattern.
pub data Trigger : Type 0 where
  schedule : Option Inner → Trigger
  startup : ℕ → Trigger
  sun : SunEvent → ℕ → Trigger
  state_change : StateChangeTrigger → Trigger
  event_type : List String → Trigger

-- `Daily`.
abbrev pub daily : ClockTime → Trigger
daily at =
    if at.invalid
    then schedule none
    else schedule (some (fixed (record { hour = at.hour; minute = at.minute })))

abbrev pub with_inner : Option IntervalTrigger → Trigger
with_inner none = schedule none
with_inner (some t) = schedule (some (interval t))

-- `Every`.
abbrev pub every : ℕ → Trigger
every d = with_inner (new_interval_trigger d [])

abbrev pub inner_next : Calendar → Inner → ℕ → Option ℕ
inner_next c (fixed t) after = fixed_next c t after
inner_next c (interval t) after = interval_next t after
inner_next c (cron t) after = cron_next t after

-- `Cron`, on what the parser makes of the expression.
abbrev pub cron_trigger : Option CronTrigger → Trigger
cron_trigger none = schedule none
cron_trigger (some parsed) = schedule (some (cron parsed))

-- `AtStartup`, which allocates.
abbrev pub at_startup : ℕ → Trigger
at_startup address = startup address

-- `newSunTrigger`, with at most one offset of those given.
abbrev pub new_sun_trigger : SunEvent → List ℕ → Trigger
new_sun_trigger event [] = sun event 0
new_sun_trigger event (offset ∷ more) = sun event offset

-- The method `dynamic`, which only sun triggers have.
abbrev pub is_dynamic : Trigger → Bool
is_dynamic (sun event offset) = true
is_dynamic _ = false

-- What `sunTrigger.NextTime` makes of the published time.
abbrev pub sun_time : Calendar → ℕ → ℕ → Option ℕ → Option ℕ
sun_time c offset after none = none
sun_time c offset after (some parsed) =
    let next = add_duration parsed offset in
    if ltb after next then some next else some (c.add_day next)

abbrev pub parsed_text : (String → Option ℕ) → Option AnyValue → Option ℕ
parsed_text parse none = none
parsed_text parse (some (text raw)) = parse raw
parsed_text parse (some (other n)) = none

-- The time that sun.sun publishes for the event, if it can be read.
abbrev pub published : (String → Option ℕ) → SunEvent → Result EntityState → Option ℕ
published parse event (err e) = none
published parse event (ok es) = parsed_text parse (lookup (attribute event) es.attributes)

-- The field `fired` of the startup trigger at an address, given the addresses where it is set.
abbrev pub has_fired : ℕ → List ℕ → Bool
has_fired address [] = false
has_fired address (a ∷ fired) = a == address || has_fired address fired

-- `startupTrigger.NextTime`, and where `fired` is set afterwards.
abbrev pub startup_next : ℕ → List ℕ → ℕ → List ℕ × Option ℕ
startup_next address fired after =
    if has_fired address fired then (fired, none) else (address ∷ fired, some after)

module _ (c : Calendar) (parse : String → Option ℕ) (read : String → Result EntityState) where
  -- `NextTime` of a bound trigger, and the startup triggers that have fired, afterwards. Event triggers
  -- have none.
  unfoldable pub next_time : List ℕ → Trigger → ℕ → List ℕ × Option ℕ
  next_time fired (schedule none) after = (fired, none)
  next_time fired (schedule (some t)) after = (fired, inner_next c t after)
  next_time fired (startup address) after = startup_next address fired after
  next_time fired (sun event offset) after =
      (fired, sun_time c offset after (published parse event (read sun_entity)))
  next_time fired (state_change t) after = (fired, none)
  next_time fired (event_type types) after = (fired, none)

-- `concerns`.
unfoldable pub concerns : StateChangeTrigger → Event → Bool
concerns t ev =
    if not (str_eq ev.type state_changed)
    then false
    else is_empty t.entity_ids || contains t.entity_ids ev.entity_id

-- `StateChangeTrigger.Matches`.
unfoldable pub matches_change : StateChangeTrigger → Event → Bool
matches_change t ev =
    if not (str_eq ev.type state_changed)
    then false
    else if ev.deleted
    then false
    else if str_eq ev.to.state ev.from.state
    then false
    else if not (is_empty t.entity_ids) && not (contains t.entity_ids ev.entity_id)
    then false
    else if not (str_eq t.from "") && not (str_eq ev.from.state t.from)
    then false
    else if not (str_eq t.to "") && not (str_eq ev.to.state t.to)
    then false
    else true

-- `Matches`; schedule triggers have none.
unfoldable pub matches : Trigger → Event → Bool
unfolding matches_change
matches (state_change t) ev = matches_change t ev
matches (event_type types) ev = contains types ev.type
matches _ ev = false

-- The event types of `Subscriptions`.
abbrev pub subscriptions : Trigger → List String
subscriptions (state_change t) = state_changed ∷ []
subscriptions (event_type types) = types
subscriptions _ = []

-- `isSchedule` of core/automation_registry.go.
abbrev pub is_schedule : Trigger → Bool
is_schedule (state_change t) = false
is_schedule (event_type types) = false
is_schedule _ = true

-- `validate` fails.
abbrev pub is_invalid : Trigger → Bool
is_invalid (schedule none) = true
is_invalid (event_type []) = true
is_invalid _ = false
