-- ===== src/Services/Tests.antt =====
-- The service methods of services/*.go on a concrete entity.
use go_ha.Prelude.{none, some, List, [], ◌∷◌}
use go_ha.Json.{Data, integer, field, empty}
use go_ha.Types.{SetTemperatureRequest}
use go_ha.Services.Addressed.{Addressed}

abbrev frost : SetTemperatureRequest
frost = record {
  temperature = some 0;
  target_temp_high = none;
  target_temp_low = none;
  hvac_mode = "heat";
}

-- The optional data of a call.
abbrev brightness : List Data
brightness = some (field "brightness" (integer 128) empty) ∷ []
