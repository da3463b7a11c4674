-- ===== src/Core/Registry/Subscribe.antt =====
-- Each event type is asked of Home Assistant once, however many automations need it.
use go_ha.Prelude.{
  ℕ, ◌+◌, String, str_eq, eq_iff, ◌≡◌, ap, ◌∙◌, Bool, true, false, not, ◌&&◌, ◌||◌, List, [], ◌∷◌,
  ◌++◌, arith, if◌then◌else◌, length, contains,
}
use go_ha.Prelude.Dict.{lookup, insert, lookup-insert}
use go_ha.Prelude.{weigh, weigh-append}
use go_ha.Core.Event.{state_changed, is_nil}
use go_ha.Core.Trigger.{Trigger, subscriptions}
use go_ha.Core.Registry.{
  Binding, Registry, bindings_of, consed_if, bind_types, requested, subscribe_automation,
}

abbrev is_type : String → String → ℕ
is_type type t = if str_eq t type then 1 else 0

-- How often an event type stands in a list.
abbrev pub times : String → List String → ℕ
times type types = weigh (is_type type) types

-- Registering the triggers of numbered automations one after the other.
pub subscribe_all : List (ℕ × Trigger) → Registry → Registry × List String
subscribe_all [] r = (r, [])
subscribe_all ((a, t) ∷ more) r =
    let first = subscribe_automation a t r in
    let rest = subscribe_all more first.0 in (rest.0, first.1 ++ rest.1)

-- Some trigger in the list needs the event type.
abbrev pub needed : String → List (ℕ × Trigger) → Bool
needed type [] = false
needed type ((a, t) ∷ more) = contains (subscriptions t) type || needed type more

-- Whether an event type has to be asked for now.
abbrev pub due : Bool → Bool → ℕ
due fresh wanted = if fresh && wanted then 1 else 0

times-consed :
    (type t : String) (c : Bool) (types : List String)
    → times type (consed_if c t types) ≡ due c (str_eq t type) + times type types
times-consed type t true types = ground arith
times-consed type t false types = ground arith

insert-known :
    (t type : String) (bs : List Binding) (m : List (String × List Binding))
    → is_nil (lookup type (insert t bs m)) ≡ (is_nil (lookup type m) && not (str_eq t type))
insert-known t type bs m = ground (arith, lookup-insert t type bs m)

same-known :
    (t type : String) (m : List (String × List Binding))
    → str_eq t type ≡ true
    → is_nil (lookup t m) ≡ is_nil (lookup type m)
same-known t type m h = ap (λ k. is_nil (lookup k m)) (ground (arith, eq_iff t type))

bind_types-fresh :
    (b : Binding) (types : List String) (m : List (String × List Binding)) (type : String)
    → (times type (bind_types b types m).1 ≡ due (is_nil (lookup type m)) (contains types type))
      × (is_nil (lookup type (bind_types b types m).0)
          ≡ (is_nil (lookup type m) && not (contains types type)))
unfolding bind_types
bind_types-fresh b [] m type = (ground arith, ground arith)
bind_types-fresh b (t ∷ types) m type =
    let next = insert t (bindings_of t m ++ b ∷ []) m in
    let (counted, seen) = bind_types-fresh b types next type in
    let known = insert-known t type (bindings_of t m ++ b ∷ []) m in
    (
      ground (
        arith,
        times-consed type t (is_nil (lookup t m)) (bind_types b types next).1,
        counted,
        known,
        eq_iff t type,
        eq_iff type t,
        same-known t type m,
      ),
      ground (arith, seen, known, eq_iff t type, eq_iff type t),
    )

times-requested :
    (type : String) (fresh : List String)
    → times type (requested fresh) ≡ (if str_eq type state_changed then 0 else times type fresh)
unfolding requested
times-requested type [] = ground arith
times-requested type (t ∷ fresh) = ground (
  arith,
  times-requested type fresh,
  eq_iff t state_changed,
  eq_iff t type,
  eq_iff type state_changed,
)

subscribe-times :
    (a : ℕ) (t : Trigger) (r : Registry) (type : String)
    → (times type (subscribe_automation a t r).1 ≡ (
        if str_eq type state_changed
        then 0
        else due (is_nil (lookup type r.automations)) (contains (subscriptions t) type)))
      × (is_nil (lookup type (subscribe_automation a t r).0.automations)
          ≡ (is_nil (lookup type r.automations) && not (contains (subscriptions t) type)))
unfolding subscribe_automation
subscribe-times a t r type =
    let b : Binding = record { automation = a; trigger = t; pending = length r.pendings } in
    let (counted, seen) = bind_types-fresh b (subscriptions t) r.automations type in
    (times-requested type _ ∙ ap (λ n. if str_eq type state_changed then 0 else n) counted, seen)

-- Whatever triggers are registered and in whatever order, Home Assistant is asked once for each event
-- type that some trigger needs and that was not registered before, and never for state_changed, which
-- the cache has asked for already.
pub subscribe_all-times :
    (more : List (ℕ × Trigger)) (r : Registry) (type : String)
    → times type (subscribe_all more r).1 ≡ (
        if str_eq type state_changed
        then 0
        else due (is_nil (lookup type r.automations)) (needed type more))
unfolding subscribe_all
subscribe_all-times [] r type = ground arith
subscribe_all-times ((a, t) ∷ more) r type = ground (
  arith,
  weigh-append (is_type type) (subscribe_automation a t r).1
      (subscribe_all more (subscribe_automation a t r).0).1,
  (subscribe-times a t r type).0,
  (subscribe-times a t r type).1,
  subscribe_all-times more (subscribe_automation a t r).0 type,
)
