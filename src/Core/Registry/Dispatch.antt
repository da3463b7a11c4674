-- ===== src/Core/Registry/Dispatch.antt =====
-- What an event does to the waits of triggers with a duration, and what it fires.
use go_ha.Prelude.{
  ◌<◌, str_eq, eq_iff, ◌≡◌, refl, sym, ◌≢◌, ◌↔◌, ◌⊎◌, Bool, true, false, not, ◌&&◌, List, [], ◌∷◌,
  arith, ltb, if◌then◌else◌, contains, is_empty,
}
use mathlib.Core.Path.{subst}
use go_ha.Core.Event.{Event, state_changed}
use go_ha.Core.Trigger.{StateChangeTrigger, state_change, matches, matches_change, concerns}
use go_ha.Core.Registry.{Decision, arms, disarms, fires, ignores, decide}

-- The entity went from one state to another; attributes alone do not count.
abbrev pub Moved : Event → Type 0
Moved ev = (ev.type ≡ state_changed) × (ev.from.state ≢ ev.to.state)

abbrev pub Watches : StateChangeTrigger → Event → Type 0
Watches t ev = (t.entity_ids ≡ []) ⊎ (contains t.entity_ids ev.entity_id ≡ true)

-- The transition is the one that the trigger was narrowed to, and the entity still exists.
abbrev pub Awaited : StateChangeTrigger → Event → Type 0
Awaited t ev =
    (ev.deleted ≡ false)
    × ((t.from ≡ "") ⊎ (ev.from.state ≡ t.from))
    × ((t.to ≡ "") ⊎ (ev.to.state ≡ t.to))

-- What an event means for a state change trigger, in three exclusive cases.
abbrev pub Meaning : StateChangeTrigger → Event → Decision → Type 0
Meaning t ev arms = (0 < t.hold) × Moved ev × Watches t ev × Awaited t ev
Meaning t ev disarms = (0 < t.hold) × Moved ev × Watches t ev × ¬ Awaited t ev
Meaning t ev fires = (t.hold ≡ 0) × Moved ev × Watches t ev × Awaited t ev
Meaning t ev ignores =
    ¬ (Moved ev × Watches t ev × Awaited t ev) × (0 < t.hold → ¬ (Moved ev × Watches t ev))

is_empty_iff {ℓ} : {A : Type ℓ} (xs : List A) → (is_empty xs ≡ true) ↔ (xs ≡ [])
is_empty_iff [] = (λ h. refl, λ h. refl)
is_empty_iff (x ∷ xs) = (λ h. cc, λ h. cc)

matches_iff :
    (t : StateChangeTrigger) (ev : Event)
    → (matches_change t ev ≡ true) ↔ (Moved ev × Watches t ev × Awaited t ev)
unfolding matches_change
matches_iff t ev = ground (
  arith,
  is_empty_iff t.entity_ids,
  eq_iff ev.type state_changed,
  eq_iff ev.to.state ev.from.state,
  eq_iff t.from "",
  eq_iff ev.from.state t.from,
  eq_iff t.to "",
  eq_iff ev.to.state t.to,
)

Moved-iff :
    (t : StateChangeTrigger) (ev : Event)
    → (concerns t ev && not (str_eq ev.to.state ev.from.state) ≡ true) ↔ (Moved ev × Watches t ev)
unfolding concerns
Moved-iff t ev = ground (
  arith,
  is_empty_iff t.entity_ids,
  eq_iff ev.type state_changed,
  eq_iff ev.to.state ev.from.state,
)

abbrev choose : Bool → Bool → Bool → Decision
choose held matched moved =
    if held
    then (if matched then arms else if moved then disarms else ignores)
    else if matched
    then fires
    else ignores

choose-Meaning :
    (t : StateChangeTrigger) (ev : Event) (held matched moved : Bool)
    → (held ≡ true) ↔ (0 < t.hold)
    → (matched ≡ true) ↔ (Moved ev × Watches t ev × Awaited t ev)
    → (moved ≡ true) ↔ (Moved ev × Watches t ev)
    → Meaning t ev (choose held matched moved)
choose-Meaning t ev true true moved h m c = (let (x, y, a) = m.0 refl in (h.0 refl, x, y, a))
choose-Meaning t ev true false true h m c =
    let (went, seen) = c.0 refl in (h.0 refl, went, seen, λ a. cc (m.1 (went, seen, a)))
choose-Meaning t ev true false false h m c = (λ x. cc (m.1 x), λ l x. cc (c.1 x))
choose-Meaning t ev false true moved h m c =
    (let z : t.hold ≡ 0 = ground (arith, h) in let (x, y, a) = m.0 refl in (z, x, y, a))
choose-Meaning t ev false false moved h m c = (λ x. cc (m.1 x), λ l. cc (h.1 l))

decide-choose :
    (t : StateChangeTrigger) (ev : Event)
    → decide (state_change t) ev
      ≡ choose
          (ltb 0 t.hold)
          (matches_change t ev)
          (concerns t ev && not (str_eq ev.to.state ev.from.state))
unfolding decide matches
decide-choose t ev = refl

-- An event arms or fires a state change trigger exactly when a watched entity made the awaited
-- transition; with a duration, another transition of a watched entity ends the wait, and an update of
-- attributes alone does not.
pub decide-Meaning :
    (t : StateChangeTrigger) (ev : Event) → Meaning t ev (decide (state_change t) ev)
decide-Meaning t ev = subst (Meaning t ev) (sym (decide-choose t ev)) (
    choose-Meaning t ev (ltb 0 t.hold) (matches_change t ev) _
      (λ h. ground arith, λ h. ground arith) (matches_iff t ev) (Moved-iff t ev))
