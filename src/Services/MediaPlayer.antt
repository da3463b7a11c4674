-- ===== src/Services/MediaPlayer.antt =====
-- services/media_player.go: what each method sends.
use go_ha.Prelude.{List}
use go_ha.Json.{Data}
use go_ha.Services.{Request, call_service, new_base_service_request, first}
use go_ha.Services.EntityId.{MediaPlayerId}

module _ {ℓ} {E : Type ℓ} (send : Request → E) where
  abbrev pub clear_playlist : MediaPlayerId → E
  clear_playlist entity_id = send (
      call_service (record (new_base_service_request entity_id.value) {
        domain = "media_player";
        service = "clear_playlist";
      }))

  abbrev pub join : MediaPlayerId → List Data → E
  join entity_id service_data = send (
      call_service (record (new_base_service_request entity_id.value) {
        domain = "media_player";
        service = "join";
        service_data = first service_data;
      }))

  abbrev pub next : MediaPlayerId → E
  next entity_id = send (
      call_service (record (new_base_service_request entity_id.value) {
        domain = "media_player";
        service = "media_next_track";
      }))

  abbrev pub pause : MediaPlayerId → E
  pause entity_id = send (
      call_service (record (new_base_service_request entity_id.value) {
        domain = "media_player";
        service = "media_pause";
      }))

  abbrev pub play : MediaPlayerId → E
  play entity_id = send (
      call_service (record (new_base_service_request entity_id.value) {
        domain = "media_player";
        service = "media_play";
      }))

  abbrev pub play_pause : MediaPlayerId → E
  play_pause entity_id = send (
      call_service (record (new_base_service_request entity_id.value) {
        domain = "media_player";
        service = "media_play_pause";
      }))

  abbrev pub previous : MediaPlayerId → E
  previous entity_id = send (
      call_service (record (new_base_service_request entity_id.value) {
        domain = "media_player";
        service = "media_previous_track";
      }))

  abbrev pub seek : MediaPlayerId → List Data → E
  seek entity_id service_data = send (
      call_service (record (new_base_service_request entity_id.value) {
        domain = "media_player";
        service = "media_seek";
        service_data = first service_data;
      }))

  abbrev pub stop : MediaPlayerId → E
  stop entity_id = send (
      call_service (record (new_base_service_request entity_id.value) {
        domain = "media_player";
        service = "media_stop";
      }))

  abbrev pub play_media : MediaPlayerId → List Data → E
  play_media entity_id service_data = send (
      call_service (record (new_base_service_request entity_id.value) {
        domain = "media_player";
        service = "play_media";
        service_data = first service_data;
      }))

  abbrev pub repeat_set : MediaPlayerId → List Data → E
  repeat_set entity_id service_data = send (
      call_service (record (new_base_service_request entity_id.value) {
        domain = "media_player";
        service = "repeat_set";
        service_data = first service_data;
      }))

  abbrev pub select_sound_mode : MediaPlayerId → List Data → E
  select_sound_mode entity_id service_data = send (
      call_service (record (new_base_service_request entity_id.value) {
        domain = "media_player";
        service = "select_sound_mode";
        service_data = first service_data;
      }))

  abbrev pub select_source : MediaPlayerId → List Data → E
  select_source entity_id service_data = send (
      call_service (record (new_base_service_request entity_id.value) {
        domain = "media_player";
        service = "select_source";
        service_data = first service_data;
      }))

  abbrev pub shuffle : MediaPlayerId → List Data → E
  shuffle entity_id service_data = send (
      call_service (record (new_base_service_request entity_id.value) {
        domain = "media_player";
        service = "shuffle_set";
        service_data = first service_data;
      }))

  abbrev pub toggle : MediaPlayerId → E
  toggle entity_id = send (
      call_service (record (new_base_service_request entity_id.value) {
        domain = "media_player";
        service = "toggle";
      }))

  abbrev pub turn_off : MediaPlayerId → E
  turn_off entity_id = send (
      call_service (record (new_base_service_request entity_id.value) {
        domain = "media_player";
        service = "turn_off";
      }))

  abbrev pub turn_on : MediaPlayerId → E
  turn_on entity_id = send (
      call_service (record (new_base_service_request entity_id.value) {
        domain = "media_player";
        service = "turn_on";
      }))

  abbrev pub unjoin : MediaPlayerId → E
  unjoin entity_id = send (
      call_service (record (new_base_service_request entity_id.value) {
        domain = "media_player";
        service = "unjoin";
      }))

  abbrev pub volume_down : MediaPlayerId → E
  volume_down entity_id = send (
      call_service (record (new_base_service_request entity_id.value) {
        domain = "media_player";
        service = "volume_down";
      }))

  abbrev pub volume_mute : MediaPlayerId → List Data → E
  volume_mute entity_id service_data = send (
      call_service (record (new_base_service_request entity_id.value) {
        domain = "media_player";
        service = "volume_mute";
        service_data = first service_data;
      }))

  abbrev pub volume_set : MediaPlayerId → List Data → E
  volume_set entity_id service_data = send (
      call_service (record (new_base_service_request entity_id.value) {
        domain = "media_player";
        service = "volume_set";
        service_data = first service_data;
      }))

  abbrev pub volume_up : MediaPlayerId → E
  volume_up entity_id = send (
      call_service (record (new_base_service_request entity_id.value) {
        domain = "media_player";
        service = "volume_up";
      }))
