-- ===== src/Media/Events.antt =====
-- One step of media_control.c at an event: a signal, an answer, or a call of its interface.
use earport_handoff.Base.{ℕ, Bool, Option, []}
use earport_handoff.Base.Text.{Bytes, CString}
use earport_handoff.HashTable.{StringTable}
use earport_handoff.Tracker.{Player}
use earport_handoff.Wear.{EarPauseMode}
use earport_handoff.Media.{
  MprisOperation, MprisStatusOperation, MediaControl, Step, on_mpris_method_finished,
  media_control_pause_all, media_control_pause_all_for_handoff, media_control_resume,
  on_mpris_properties_changed, on_player_status_finished, query_player_playback_status_async,
  on_name_owner_changed, media_control_set_ear_pause_mode, media_control_on_ear_detection_changed,
  media_control_set_airpods_link_active, media_control_set_airpods_audio_active,
  media_control_reset_device_state, media_control_clear_handoff_pause, media_control_free,
  media_control_reclaim_audio,
}

pub data MediaEvent : Type 0 where
  method_finished : MprisOperation → Bool → MediaEvent
  properties_changed : Bytes → Option Bytes → MediaEvent
  status_finished : MprisStatusOperation → Option Bytes → MediaEvent
  name_owner_changed : (name old_owner new_owner : Bytes) → MediaEvent
  query_status : Bytes → Bool → MediaEvent
  pause_all pause_all_for_handoff resume : MediaEvent
  set_ear_pause_mode : EarPauseMode → MediaEvent
  ear_detection_changed : Bool → Bool → MediaEvent
  set_link_active set_audio_active : Bool → MediaEvent
  reset_device_state clear_handoff_pause free : MediaEvent
  reclaim_audio : CString → MediaEvent

module _ (G : StringTable Player) (P : StringTable ℕ) where
  unfoldable pub media_step : MediaControl G P → MediaEvent → Step G P
  media_step mc (method_finished operation successful) =
      (on_mpris_method_finished G P mc operation successful, [])
  media_step mc (properties_changed sender status) =
      on_mpris_properties_changed G P mc sender status
  media_step mc (status_finished operation answer) =
      on_player_status_finished G P mc operation answer
  media_step mc (name_owner_changed name old_owner new_owner) =
      on_name_owner_changed G P mc name old_owner new_owner
  media_step mc (query_status player suppress) =
      query_player_playback_status_async G P mc player suppress
  media_step mc pause_all = media_control_pause_all G P mc
  media_step mc pause_all_for_handoff = media_control_pause_all_for_handoff G P mc
  media_step mc resume = media_control_resume G P mc
  media_step mc (set_ear_pause_mode mode) = media_control_set_ear_pause_mode G P mc mode
  media_step mc (ear_detection_changed left right) =
      media_control_on_ear_detection_changed G P mc left right
  media_step mc (set_link_active active) = media_control_set_airpods_link_active G P mc active
  media_step mc (set_audio_active active) =
      (media_control_set_airpods_audio_active G P mc active, [])
  media_step mc reset_device_state = media_control_reset_device_state G P mc
  media_step mc clear_handoff_pause = (media_control_clear_handoff_pause G P mc, [])
  media_step mc free = media_control_free G P mc
  media_step mc (reclaim_audio address) = (mc, media_control_reclaim_audio G P mc address)

  abbrev pub after_event : MediaControl G P → MediaEvent → MediaControl G P
  after_event mc e = (media_step mc e).0
