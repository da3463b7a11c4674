-- ===== src/Services/Typed.antt =====
-- The methods of services/*.go, side by side, each with what it sends.
use go_ha.Services.AdaptiveLighting
use go_ha.Services.AlarmControlPanel
use go_ha.Services.Climate
use go_ha.Services.Cover
use go_ha.Services.HomeAssistant
use go_ha.Services.InputBoolean
use go_ha.Services.InputButton
use go_ha.Services.InputDatetime
use go_ha.Services.InputNumber
use go_ha.Services.InputText
use go_ha.Services.Light
use go_ha.Services.Lock
use go_ha.Services.MediaPlayer
use go_ha.Services.Number
use go_ha.Services.Scene
use go_ha.Services.Script
use go_ha.Services.Switch
use go_ha.Services.Timer
use go_ha.Services.Tts
use go_ha.Services.Vacuum
use go_ha.Services.ZWaveJs
use go_ha.Prelude.{ℕ, String, Bool, Option, none, some, List, [], ◌∷◌}
use go_ha.Json.{Any, Data}
use go_ha.Types.{SetTemperatureRequest}
use go_ha.Services.{Request, first}
use go_ha.Services.EntityId.{EntityId}

abbrev sent : Request → Request
sent r = r

module _ (sprint : ℕ → String) (e : EntityId) (s : String) (n : ℕ) (x : Any)
    (t : SetTemperatureRequest) (v : List Data) where
  -- With the type of its id, where `EntityID` is that of any entity, and the optional service data where the
  -- method takes it, in the order of the files.
  abbrev pub typed_methods : List (Option String × Option Data × Request)
  typed_methods =
      (
        some "AlarmControlPanelID",
        some (first v),
        AlarmControlPanel.arm_away sent (record { value = e }) v,
      )
      ∷ (
        some "AlarmControlPanelID",
        some (first v),
        AlarmControlPanel.arm_with_custom_bypass sent (record { value = e }) v,
      )
      ∷ (
        some "AlarmControlPanelID",
        some (first v),
        AlarmControlPanel.arm_home sent (record { value = e }) v,
      )
      ∷ (
        some "AlarmControlPanelID",
        some (first v),
        AlarmControlPanel.arm_night sent (record { value = e }) v,
      )
      ∷ (
        some "AlarmControlPanelID",
        some (first v),
        AlarmControlPanel.arm_vacation sent (record { value = e }) v,
      )
      ∷ (
        some "AlarmControlPanelID",
        some (first v),
        AlarmControlPanel.disarm sent (record { value = e }) v,
      )
      ∷ (
        some "AlarmControlPanelID",
        some (first v),
        AlarmControlPanel.trigger sent (record { value = e }) v,
      )
      ∷ (some "ClimateID", none, Climate.set_fan_mode sent (record { value = e }) s)
      ∷ (some "ClimateID", none, Climate.set_temperature sent (record { value = e }) t)
      ∷ (some "CoverID", none, Cover.close sent (record { value = e }))
      ∷ (some "CoverID", none, Cover.close_tilt sent (record { value = e }))
      ∷ (some "CoverID", none, Cover.open_cover sent (record { value = e }))
      ∷ (some "CoverID", none, Cover.open_tilt sent (record { value = e }))
      ∷ (some "CoverID", some (first v), Cover.set_position sent (record { value = e }) v)
      ∷ (some "CoverID", some (first v), Cover.set_tilt_position sent (record { value = e }) v)
      ∷ (some "CoverID", none, Cover.stop sent (record { value = e }))
      ∷ (some "CoverID", none, Cover.stop_tilt sent (record { value = e }))
      ∷ (some "CoverID", none, Cover.toggle sent (record { value = e }))
      ∷ (some "CoverID", none, Cover.toggle_tilt sent (record { value = e }))
      ∷ (none, some (first v), HomeAssistant.turn_on sent e v)
      ∷ (none, some (first v), HomeAssistant.toggle sent e v)
      ∷ (none, none, HomeAssistant.turn_off sent e)
      ∷ (some "InputBooleanID", none, InputBoolean.turn_on sent (record { value = e }))
      ∷ (some "InputBooleanID", none, InputBoolean.toggle sent (record { value = e }))
      ∷ (some "InputBooleanID", none, InputBoolean.turn_off sent (record { value = e }))
      ∷ (some "InputButtonID", none, InputButton.press sent (record { value = e }))
      ∷ (some "InputDatetimeID", none, InputDatetime.set sprint sent (record { value = e }) n)
      ∷ (some "InputNumberID", none, InputNumber.set sent (record { value = e }) n)
      ∷ (some "InputNumberID", none, InputNumber.increment sent (record { value = e }))
      ∷ (some "InputNumberID", none, InputNumber.decrement sent (record { value = e }))
      ∷ (some "InputTextID", none, InputText.set sent (record { value = e }) s)
      ∷ (some "LightID", some (first v), Light.turn_on sent (record { value = e }) v)
      ∷ (some "LightID", some (first v), Light.toggle sent (record { value = e }) v)
      ∷ (some "LightID", none, Light.turn_off sent (record { value = e }))
      ∷ (some "LockID", some (first v), Lock.lock sent (record { value = e }) v)
      ∷ (some "LockID", some (first v), Lock.unlock sent (record { value = e }) v)
      ∷ (some "MediaPlayerID", none, MediaPlayer.clear_playlist sent (record { value = e }))
      ∷ (some "MediaPlayerID", some (first v), MediaPlayer.join sent (record { value = e }) v)
      ∷ (some "MediaPlayerID", none, MediaPlayer.next sent (record { value = e }))
      ∷ (some "MediaPlayerID", none, MediaPlayer.pause sent (record { value = e }))
      ∷ (some "MediaPlayerID", none, MediaPlayer.play sent (record { value = e }))
      ∷ (some "MediaPlayerID", none, MediaPlayer.play_pause sent (record { value = e }))
      ∷ (some "MediaPlayerID", none, MediaPlayer.previous sent (record { value = e }))
      ∷ (some "MediaPlayerID", some (first v), MediaPlayer.seek sent (record { value = e }) v)
      ∷ (some "MediaPlayerID", none, MediaPlayer.stop sent (record { value = e }))
      ∷ (some "MediaPlayerID", some (first v), MediaPlayer.play_media sent (record { value = e }) v)
      ∷ (some "MediaPlayerID", some (first v), MediaPlayer.repeat_set sent (record { value = e }) v)
      ∷ (
        some "MediaPlayerID",
        some (first v),
        MediaPlayer.select_sound_mode sent (record { value = e }) v,
      )
      ∷ (
        some "MediaPlayerID",
        some (first v),
        MediaPlayer.select_source sent (record { value = e }) v,
      )
      ∷ (some "MediaPlayerID", some (first v), MediaPlayer.shuffle sent (record { value = e }) v)
      ∷ (some "MediaPlayerID", none, MediaPlayer.toggle sent (record { value = e }))
      ∷ (some "MediaPlayerID", none, MediaPlayer.turn_off sent (record { value = e }))
      ∷ (some "MediaPlayerID", none, MediaPlayer.turn_on sent (record { value = e }))
      ∷ (some "MediaPlayerID", none, MediaPlayer.unjoin sent (record { value = e }))
      ∷ (some "MediaPlayerID", none, MediaPlayer.volume_down sent (record { value = e }))
      ∷ (
        some "MediaPlayerID",
        some (first v),
        MediaPlayer.volume_mute sent (record { value = e }) v,
      )
      ∷ (some "MediaPlayerID", some (first v), MediaPlayer.volume_set sent (record { value = e }) v)
      ∷ (some "MediaPlayerID", none, MediaPlayer.volume_up sent (record { value = e }))
      ∷ (some "NumberID", none, Number.set_value sent (record { value = e }) n)
      ∷ (some "SceneID", some (first v), Scene.create sent (record { value = e }) v)
      ∷ (some "SceneID", some (first v), Scene.turn_on sent (record { value = e }) v)
      ∷ (some "ScriptID", none, Script.reload sent (record { value = e }))
      ∷ (some "ScriptID", none, Script.toggle sent (record { value = e }))
      ∷ (some "ScriptID", none, Script.turn_off sent (record { value = e }))
      ∷ (some "ScriptID", none, Script.turn_on sent (record { value = e }))
      ∷ (some "SwitchID", none, Switch.turn_on sent (record { value = e }))
      ∷ (some "SwitchID", none, Switch.toggle sent (record { value = e }))
      ∷ (some "SwitchID", none, Switch.turn_off sent (record { value = e }))
      ∷ (some "TimerID", none, Timer.start sent (record { value = e }) s)
      ∷ (some "TimerID", none, Timer.change sent (record { value = e }) s)
      ∷ (some "TimerID", none, Timer.pause sent (record { value = e }))
      ∷ (some "TimerID", none, Timer.cancel sent (record { value = e }))
      ∷ (some "TimerID", none, Timer.finish sent (record { value = e }))
      ∷ (none, some (first v), Tts.cloud_say sent e v)
      ∷ (none, some (first v), Tts.google_translate_say sent e v)
      ∷ (some "VacuumID", none, Vacuum.clean_spot sent (record { value = e }))
      ∷ (some "VacuumID", none, Vacuum.locate sent (record { value = e }))
      ∷ (some "VacuumID", none, Vacuum.pause sent (record { value = e }))
      ∷ (some "VacuumID", none, Vacuum.return_to_base sent (record { value = e }))
      ∷ (some "VacuumID", some (first v), Vacuum.send_command sent (record { value = e }) v)
      ∷ (some "VacuumID", some (first v), Vacuum.set_fan_speed sent (record { value = e }) v)
      ∷ (some "VacuumID", none, Vacuum.start sent (record { value = e }))
      ∷ (some "VacuumID", none, Vacuum.start_pause sent (record { value = e }))
      ∷ (some "VacuumID", none, Vacuum.stop sent (record { value = e }))
      ∷ (some "VacuumID", none, Vacuum.turn_off sent (record { value = e }))
      ∷ (some "VacuumID", none, Vacuum.turn_on sent (record { value = e }))
      ∷ (none, none, ZWaveJs.bulk_set_partial_config_param sent e n x)
      ∷ []

  -- The methods that name no target.
  abbrev pub other_methods : Bool → List Request
  other_methods b =
      AdaptiveLighting.set_manual_control sent "" b
      ∷ InputBoolean.reload sent
      ∷ InputButton.reload sent
      ∷ InputDatetime.reload sprint sent
      ∷ InputNumber.reload sent
      ∷ InputText.reload sent
      ∷ Scene.apply sent v
      ∷ Scene.reload sent
      ∷ Timer.reload sent
      ∷ Tts.clear_cache sent
      ∷ []
