-- ===== src/Services/EntityId.antt =====
-- services/entity_id.go: the ids of the entities of each domain are types of their own.
use go_ha.Prelude.{String, List, [], ◌∷◌}

abbrev pub EntityId : Type 0
EntityId = String

pub record AlarmControlPanelId : Type 0 where
  pub value : EntityId

pub record ClimateId : Type 0 where
  pub value : EntityId

pub record CoverId : Type 0 where
  pub value : EntityId

pub record InputBooleanId : Type 0 where
  pub value : EntityId

pub record InputButtonId : Type 0 where
  pub value : EntityId

pub record InputDatetimeId : Type 0 where
  pub value : EntityId

pub record InputNumberId : Type 0 where
  pub value : EntityId

pub record InputTextId : Type 0 where
  pub value : EntityId

pub record LightId : Type 0 where
  pub value : EntityId

pub record LockId : Type 0 where
  pub value : EntityId

pub record MediaPlayerId : Type 0 where
  pub value : EntityId

pub record NumberId : Type 0 where
  pub value : EntityId

pub record SceneId : Type 0 where
  pub value : EntityId

pub record ScriptId : Type 0 where
  pub value : EntityId

pub record SwitchId : Type 0 where
  pub value : EntityId

pub record TimerId : Type 0 where
  pub value : EntityId

pub record VacuumId : Type 0 where
  pub value : EntityId

-- `DomainIDTypes`.
unfoldable pub domain_id_types : List (String × String)
domain_id_types =
    ("alarm_control_panel", "AlarmControlPanelID")
    ∷ ("climate", "ClimateID")
    ∷ ("cover", "CoverID")
    ∷ ("input_boolean", "InputBooleanID")
    ∷ ("input_button", "InputButtonID")
    ∷ ("input_datetime", "InputDatetimeID")
    ∷ ("input_number", "InputNumberID")
    ∷ ("input_text", "InputTextID")
    ∷ ("light", "LightID")
    ∷ ("lock", "LockID")
    ∷ ("media_player", "MediaPlayerID")
    ∷ ("number", "NumberID")
    ∷ ("scene", "SceneID")
    ∷ ("script", "ScriptID")
    ∷ ("switch", "SwitchID")
    ∷ ("timer", "TimerID")
    ∷ ("vacuum", "VacuumID")
    ∷ []
