-- ===== src/Core/State/Tests.antt =====
-- Reads of core/state.go at a concrete decoder.
use go_ha.Prelude.{str_eq, eq_iff, ◌≡◌, refl, none, some, List, [], ◌∷◌, arith, if◌then◌else◌}
use go_ha.Prelude.Dict.{lookup}
use go_ha.Core.Event.{EntityState, Decoder, Payload, state_changed}
use go_ha.Core.Cache.{new_entity_cache, stream, Update, removes}
use go_ha.Core.Cache.Window.{writes, latest}
use go_ha.Core.State.{failed, body, not_found, open_seed, close_seed, apply_event, get_state}
use go_ha.Core.State.Laws.{get_state-seeded, apply_event-lookup, found_or, stored}

abbrev door : EntityState
door = record {
  entity_id = "door.front";
  state = "open";
  attributes = [];
  last_changed = 4;
  last_updated = 4;
}

abbrev opened : Payload
opened = record {
  entity_id = "door.front";
  new_state = some (record {
    entity_id = "";
    last_changed = 4;
    last_updated = 4;
    state = "open";
    attributes = [];
  });
  old_state = none;
}

abbrev decoder : Decoder
decoder = record {
  envelope = λ b. some state_changed;
  payload = λ b. some opened;
  entity = λ b. some door;
  entities = λ b. some (door ∷ []);
}

abbrev racing : List Update
racing = removes "door.back" ∷ []

get_state-seeded_example :
    get_state decoder "door.front"
      (close_seed decoder (body "[…]") (stream racing (open_seed decoder new_entity_cache))).0
      failed
    ≡ found_or
        (if writes racing new_entity_cache "door.front"
          then lookup "door.front" (stream racing new_entity_cache).entities
          else latest "door.front" (door ∷ []))
        not_found
get_state-seeded_example =
    get_state-seeded decoder new_entity_cache racing "[…]" (door ∷ []) "door.front" failed refl

apply_event-lookup_example :
    lookup "door.front" (apply_event decoder "{…}" new_entity_cache).entities
    ≡ (if str_eq "door.front" "door.front" then stored "door.front" opened.new_state none else none)
unfolding lookup
apply_event-lookup_example =
    apply_event-lookup decoder "{…}" opened new_entity_cache "door.front" refl refl
      (λ h. ground (arith, eq_iff "door.front" ""))
