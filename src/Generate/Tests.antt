-- ===== src/Generate/Tests.antt =====
-- Entities of two domains, as cmd/generate/main.go gathers them.
use go_ha.Prelude.{◌≤◌, String, ◌≡◌, ◌↔◌, refl, true, none, List, [], ◌∷◌, str_eq, if◌then◌else◌}
use go_ha.Prelude.Dict.{lookup, insert}
use go_ha.Services.EntityId.{domain_id_types}
use go_ha.Generate.{
  Source, Gathered, split, to_camel_case, to_field_name, includes, admitted, store, gather,
}
use go_ha.Generate.Stored.{held, tally}
use go_ha.Generate.Chosen.{Chosen}
use go_ha.Generate.Fields.{gather-fields}
use go_ha.Generate.Names.{leads_with_underscore, to_camel_case-panics}

abbrev sources : List Source
sources =
    record { entity_id = "light.hall"; state = "on" }
    ∷ record { entity_id = "switch.fan"; state = "unavailable" }
    ∷ record { entity_id = "light.2nd_floor"; state = "off" }
    ∷ record { entity_id = "input_boolean.guests"; state = "off" }
    ∷ []

abbrev upper : String → String
upper s =
    if str_eq s "h" then "H" else if str_eq s "l" then "L" else if str_eq s "f" then "F" else s

abbrev gathered : Gathered
gathered = record {
  domains =
      (
        "light",
        record {
          name = "Light";
          id_type = "LightID";
          entities =
              record { field_name = "Hall"; entity_id = "light.hall" }
              ∷ record { field_name = "_2ndFloor"; entity_id = "light.2nd_floor" }
              ∷ [];
        },
      )
      ∷ [];
  seen = ("light", ("Hall", "light.hall") ∷ ("_2ndFloor", "light.2nd_floor") ∷ []) ∷ [];
}

gather-fields_example :
    Chosen upper [] ("input_boolean" ∷ []) "light" sources (held "light" gathered)
    × ((f : String) → tally f (held "light" gathered) ≤ 1)
unfolding gather admitted split to_field_name to_camel_case includes store lookup insert
    domain_id_types
gather-fields_example = gather-fields upper [] ("input_boolean" ∷ []) sources gathered refl "light"

to_camel_case-panics_example :
    (to_camel_case upper "_hall" ≡ none) ↔ (leads_with_underscore "_hall" ≡ true)
to_camel_case-panics_example = to_camel_case-panics upper "_hall"
