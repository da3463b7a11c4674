-- ===== src/Types.antt =====
-- types/request.go. A `*float32` is nothing or the number's bits.
use go_ha.Prelude.{ℕ, String, str_eq, Option, none, some, if◌then◌else◌}
use go_ha.Json.{Fields, text, float, empty, field, Data}

pub record NotifyRequest : Type 0 where
  pub service_name : String
  pub message : String
  pub title : String
  pub extra : Data

pub record SetTemperatureRequest : Type 0 where
  pub temperature : Option ℕ
  pub target_temp_high : Option ℕ
  pub target_temp_low : Option ℕ
  pub hvac_mode : String

-- A pointer that is not nil is put under its key.
abbrev optional : String → Option ℕ → Fields → Fields
optional key none rest = rest
optional key (some bits) rest = field key (float bits) rest

-- `ToJSON`.
unfoldable pub to_json : SetTemperatureRequest → Fields
to_json r = optional "temperature" r.temperature (
    optional "target_temp_high" r.target_temp_high (
      optional "target_temp_low" r.target_temp_low
        (if str_eq r.hvac_mode "" then empty else field "hvac_mode" (text r.hvac_mode) empty)))
