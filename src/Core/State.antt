-- ===== src/Core/State.antt =====
-- core/state.go: reading entities through the cache, and seeding it. The REST client is not
-- modelled: what a request returns is an argument.
pub mod Laws
mod Tests
use go_ha.Prelude.{
  ℕ, zero, suc, ◌+◌, ◌-◌, ◌*◌, ◌/◌, ◌%◌, ◌^◌, ◌≤◌, ◌<◌, String, str_eq, eq_iff, eq_refl, ◌≡◌, refl,
  sym, ap, ◌∙◌, fun_ext, ◌≢◌, ◌↔◌, ◌⊎◌, inl, inr, Bool, true, false, not, ◌&&◌, ◌||◌, Option, none,
  some, List, [], ◌∷◌, ◌++◌, map, arith, ltb, leb, ◌==◌, if◌then◌else◌, Bool-cases, Option-cases,
  length, length-append, All, All-map, All-append, contains, is_empty, ltb→lt, ltb→le,
}
use go_ha.Prelude.Dict.{lookup}
use go_ha.Core.Event.{EntityState, Event, Decoder, state_changed, parse_event}
use go_ha.Core.Cache.{
  EntityCache, begin_seed, finish_seed, abandon_seed, apply, remove, lookup_entity, snapshot,
}

-- What a REST request returns: an error of the client, or a body.
pub data Response : Type 0 where
  failed : Response
  body : String → Response

pub data StateError : Type 0 where
  not_found http_failed undecodable : StateError

pub data Result {ℓ} (A : Type ℓ) : Type ℓ where
  ok : A → Result A
  err : StateError → Result A

pub decoded {ℓ} : {A : Type ℓ} → Option A → Result A
decoded none = err undecodable
decoded (some a) = ok a

pub fetched {ℓ} : {A : Type ℓ} → (String → Option A) → Response → Result A
unfolding decoded
fetched decode failed = err http_failed
fetched decode (body b) = decoded (decode b)

-- `applyEvent` on the event that the bytes decode to.
pub apply_parsed : Event → EntityCache → EntityCache
apply_parsed ev c =
    if not (str_eq ev.type state_changed) || str_eq ev.entity_id ""
    then c
    else if ev.deleted
    then remove ev.entity_id c
    else apply ev.to c

module _ (d : Decoder) where
  -- `seed` up to the request: the window opens before the request is sent.
  unfoldable pub open_seed : EntityCache → EntityCache
  open_seed c = begin_seed c

  close_decoded : Option (List EntityState) → EntityCache → EntityCache × Option StateError
  close_decoded none c = (abandon_seed c, some undecodable)
  close_decoded (some list) c = (finish_seed list c, none)

  -- `seed` from the response on; the stream may have changed the cache in between.
  unfoldable pub close_seed : Response → EntityCache → EntityCache × Option StateError
  unfolding close_decoded
  close_seed failed c = (abandon_seed c, some http_failed)
  close_seed (body b) c = close_decoded (d.entities b) c

  -- `applyEvent`.
  unfoldable pub apply_event : String → EntityCache → EntityCache
  unfolding apply_parsed
  apply_event raw c = apply_parsed (parse_event d raw) c

  answer : Option EntityState × Bool → Response → Result EntityState
  unfolding fetched
  answer (some es, seeded) r = ok es
  answer (none, true) r = err not_found
  answer (none, false) r = fetched d.entity r

  -- `Get`; `r` is what `GetState` would return, and is looked at only when it is called.
  unfoldable pub get_state : String → EntityCache → Response → Result EntityState
  unfolding answer lookup_entity
  get_state id c r = answer (lookup_entity id c) r

  list_or_fetch : Option (List EntityState) → Response → Result (List EntityState)
  unfolding fetched
  list_or_fetch (some entities) r = ok entities
  list_or_fetch none r = fetched d.entities r

  unfoldable pub list_entities : EntityCache → Response → Result (List EntityState)
  unfolding list_or_fetch snapshot
  list_entities c r = list_or_fetch (snapshot c) r

  same_state : String → Result EntityState → Result Bool
  same_state expected (err e) = err e
  same_state expected (ok es) = ok (str_eq es.state expected)

  unfoldable pub equals : String → String → EntityCache → Response → Result Bool
  unfolding same_state get_state
  equals id expected c r = same_state expected (get_state id c r)
