-- ===== src/Media/Handlers.antt =====
-- The start, and the public operations of media_control.c.
use earport_handoff.Base.{
  ℕ, ◌+◌, ◌%◌, ◌^◌, Bool, true, false, not, ◌&&◌, ◌||◌, List, [], ◌∷◌, if◌then◌else◌,
}
use earport_handoff.Base.Text.{CString}
use earport_handoff.HashTable.{StringTable}
use earport_handoff.Tracker.{Player, media_playback_tracker_new, media_playback_tracker_is_playing}
use earport_handoff.Wear.{
  EarPauseMode, one_out, WearPolicyAction, none as no_action, pause, resume,
  wear_policy_blocks_playback, wear_policy_transition, wear_policy_mode_change,
}
use earport_handoff.Media.State.{
  Effect, restore_route, cancel_route, start_route, is_empty, MediaControl, Step, no_pauses,
}
use earport_handoff.Media.Calls.{media_control_pause_all, media_control_resume}

abbrev pub is_no_action : WearPolicyAction → Bool
is_no_action no_action = true
is_no_action _ = false

abbrev pub same_bool : Bool → Bool → Bool
same_bool true b = b
same_bool false b = not b

module _ (G : StringTable Player) (P : StringTable ℕ) where
  -- `media_control_new`, before the queries of the players that it finds
  unfoldable pub media_control_init : MediaControl G P
  unfolding media_playback_tracker_new
  media_control_init = record {
    disposed = false;
    ear_pause_mode = one_out;
    playback_tracker = media_playback_tracker_new G;
    airpods_link_active = false;
    airpods_audio_active = false;
    ear = no_pauses G P;
    handoff = no_pauses G P;
    pending_status_queries = P.new;
    mpris_generation = 0;
    next_operation_serial = 0;
    prev_left_in_ear = false;
    prev_right_in_ear = false;
    prev_state_valid = false;
  }

  -- what a wear action does, where a pause takes the test of the caller
  abbrev pub perform_action : MediaControl G P → WearPolicyAction → Bool → Step G P
  perform_action mc pause allowed = if allowed then media_control_pause_all G P mc else (mc, [])
  perform_action mc resume allowed = media_control_resume G P mc
  perform_action mc no_action allowed = (mc, [])

  unfoldable pub media_control_set_ear_pause_mode : MediaControl G P → EarPauseMode → Step G P
  unfolding media_control_pause_all media_control_resume
  media_control_set_ear_pause_mode mc mode =
      perform_action (record mc { ear_pause_mode = mode })
        (wear_policy_mode_change mc.ear_pause_mode mode mc.prev_state_valid mc.prev_left_in_ear
          mc.prev_right_in_ear)
        true

  -- a first report that does not block completes a removal whose pauses are still held
  abbrev pub ear_action : MediaControl G P → Bool → Bool → WearPolicyAction
  ear_action mc left_in_ear right_in_ear =
      let action =
        wear_policy_transition mc.ear_pause_mode mc.prev_state_valid mc.prev_left_in_ear
          mc.prev_right_in_ear left_in_ear right_in_ear in
      if not mc.prev_state_valid
        && is_no_action action
        && not (wear_policy_blocks_playback mc.ear_pause_mode true left_in_ear right_in_ear)
        && (not (is_empty mc.ear.paused_players)
            || not (is_empty (P.entries mc.ear.pending_pauses)))
      then resume
      else action

  unfoldable pub media_control_on_ear_detection_changed : MediaControl G P → Bool → Bool → Step G P
  unfolding media_control_pause_all media_control_resume
  media_control_on_ear_detection_changed mc left_in_ear right_in_ear =
      let seen : MediaControl G P = record mc {
        prev_left_in_ear = left_in_ear;
        prev_right_in_ear = right_in_ear;
        prev_state_valid = true;
      } in
      if not mc.airpods_link_active
      then (mc, [])
      else perform_action seen (ear_action mc left_in_ear right_in_ear) mc.airpods_audio_active

  unfoldable pub media_control_set_airpods_link_active : MediaControl G P → Bool → Step G P
  media_control_set_airpods_link_active mc active =
      let lost : MediaControl G P = record mc {
        airpods_link_active = false;
        prev_state_valid = false;
        airpods_audio_active = false;
      } in
      if same_bool mc.airpods_link_active active
      then (mc, [])
      else if active
      then (record mc { airpods_link_active = true }, [])
      else (lost, restore_route ∷ [])

  unfoldable pub media_control_set_airpods_audio_active : MediaControl G P → Bool → MediaControl G P
  media_control_set_airpods_audio_active mc active = record mc {
    airpods_audio_active = active && mc.airpods_link_active;
  }

  unfoldable pub media_control_reset_device_state : MediaControl G P → Step G P
  media_control_reset_device_state mc = (
    record mc {
      mpris_generation = (mc.mpris_generation + 1) % 2 ^ 32;
      airpods_link_active = false;
      airpods_audio_active = false;
      prev_state_valid = false;
      ear = no_pauses G P;
      handoff = no_pauses G P;
    },
    restore_route ∷ [],
  )

  unfoldable pub media_control_clear_handoff_pause : MediaControl G P → MediaControl G P
  media_control_clear_handoff_pause mc = record mc { handoff = no_pauses G P }

  -- the callbacks are dropped, so that no more of them are called
  unfoldable pub media_control_free : MediaControl G P → Step G P
  media_control_free mc = if mc.disposed then (mc, []) else (
    record mc { disposed = true; mpris_generation = (mc.mpris_generation + 1) % 2 ^ 32 },
    cancel_route ∷ [],
  )

  unfoldable pub media_control_is_playing : MediaControl G P → Bool
  media_control_is_playing mc = media_playback_tracker_is_playing G mc.playback_tracker

  unfoldable pub media_control_wear_state_blocks_playback : MediaControl G P → Bool
  media_control_wear_state_blocks_playback mc =
      if not mc.airpods_link_active
      then false
      else wear_policy_blocks_playback mc.ear_pause_mode mc.prev_state_valid mc.prev_left_in_ear
          mc.prev_right_in_ear

  unfoldable pub media_control_can_claim_or_route_audio : MediaControl G P → Bool
  media_control_can_claim_or_route_audio mc =
      mc.airpods_link_active && mc.prev_state_valid && (mc.prev_left_in_ear || mc.prev_right_in_ear)

  -- without the result of `audio_route_start`
  unfoldable pub media_control_reclaim_audio : MediaControl G P → CString → List Effect
  unfolding media_control_can_claim_or_route_audio
  media_control_reclaim_audio mc device_address =
      if not (media_control_can_claim_or_route_audio mc)
      then []
      else start_route device_address ∷ []
