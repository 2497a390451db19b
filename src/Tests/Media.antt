-- ===== src/Tests/Media.antt =====
-- The media control over tables that are lists of pairs.
use earport_handoff.Base.{
  ℕ, ◌≡◌, refl, sym, true, false, not, ◌&&◌, ◌||◌, some, List, [], ◌∷◌, arith, count, bytes_equal,
}
use earport_handoff.Base.Text.{Bytes, codes}
use earport_handoff.Base.Trace.{run}
use earport_handoff.HashTable.{StringTable, StringTableLaws}
use earport_handoff.Tracker.{
  Player, media_playback_tracker_dup_playing_ids, media_playback_tracker_new,
  media_playback_tracker_update, update_player, media_playback_tracker_player_is_playing,
}
use earport_handoff.Media.{
  pause_for_ear, MprisOperation, MediaControl, call, player_list_contains, is_some,
  pause_reason_contains, media_control_init, media_control_resume, media_control_pause_all,
  on_mpris_properties_changed, pause_all_into, pause_players, player_pause_async, pause_for,
  pause_new, queue_mpris_method, handle_playback_update, reconcile_explicit_player_start,
  media_control_set_airpods_link_active, media_control_set_airpods_audio_active,
}
use earport_handoff.Media.Events.{
  MediaEvent, method_finished, properties_changed, pause_all, set_link_active, set_audio_active,
  reset_device_state, media_step, after_event,
}
use earport_handoff.Media.Held.{IsConsistent}
use earport_handoff.Media.Consistent.{run-IsConsistent}
use earport_handoff.Media.Keeps.{all_allowed}
use earport_handoff.Media.Allowed.{pause_allowed}
use earport_handoff.Media.Stale.{stale_ignored}
use earport_handoff.Media.Lists.{one_if}
use earport_handoff.Media.Resume.{plays, reaches}
use earport_handoff.Media.Paused.{pause_all-resume}
use earport_handoff.Media.Started.{explicit_start}
use earport_handoff.Tests.Pairs.{pairs_table, pairs_table_laws}

abbrev players : StringTable Player
players = pairs_table Player

abbrev serials : StringTable ℕ
serials = pairs_table ℕ

abbrev serials_laws : StringTableLaws serials
serials_laws = pairs_table_laws ℕ

abbrev mpv : Bytes
mpv = codes ":1.7"

-- The AirPods carry the audio, and a player starts.
abbrev playing_events : List MediaEvent
playing_events =
    set_link_active true
    ∷ set_audio_active true
    ∷ properties_changed mpv (some (codes "Playing"))
    ∷ []

abbrev after_events : List MediaEvent → MediaControl players serials
after_events es = run (after_event players serials) (media_control_init players serials) es

abbrev playing_state : MediaControl players serials
playing_state = after_events playing_events

-- A pause of all sends one Pause.
abbrev pause_operation : MprisOperation
pause_operation = record {
  generation = 0;
  pending_serial = 1;
  action = pause_for_ear;
  player_name = mpv;
}

pause_all_effects :
    (media_step players serials playing_state pause_all).1 ≡ call pause_operation ∷ []
unfolding media_step media_control_init media_control_set_airpods_link_active
    media_control_set_airpods_audio_active on_mpris_properties_changed media_control_pause_all
    pause_all_into pause_players player_pause_async pause_for pause_new queue_mpris_method
    handle_playback_update reconcile_explicit_player_start media_playback_tracker_new
    media_playback_tracker_update update_player media_playback_tracker_dup_playing_ids
    media_playback_tracker_player_is_playing
pause_all_effects = refl

playing_flags :
    (playing_state.airpods_link_active ≡ true)
    × (playing_state.airpods_audio_active ≡ true)
    × (playing_state.mpris_generation ≡ 0)
unfolding media_step media_control_init media_control_set_airpods_link_active
    media_control_set_airpods_audio_active on_mpris_properties_changed handle_playback_update
    reconcile_explicit_player_start media_playback_tracker_new media_playback_tracker_update
    update_player media_playback_tracker_player_is_playing
playing_flags = (refl, refl, refl)

-- A player that is paused is seen.
abbrev stopped_events : List MediaEvent
stopped_events = set_link_active true ∷ properties_changed mpv (some (codes "Paused")) ∷ []

mpv_silent :
    media_playback_tracker_player_is_playing players
      (after_events stopped_events).playback_tracker
      (some mpv)
    ≡ false
unfolding media_step media_control_init media_control_set_airpods_link_active
    on_mpris_properties_changed handle_playback_update reconcile_explicit_player_start
    media_playback_tracker_new media_playback_tracker_update update_player
    media_playback_tracker_player_is_playing
mpv_silent = refl

run-IsConsistent_example : IsConsistent players serials playing_state
run-IsConsistent_example = run-IsConsistent players serials serials_laws playing_events

pause_allowed_example :
    all_allowed playing_state.airpods_link_active playing_state.airpods_audio_active
      (media_step players serials playing_state pause_all).1
    ≡ true
pause_allowed_example = pause_allowed players serials playing_state pause_all

stale_ignored_example :
    let later =
      run
        (after_event players serials)
        playing_state
        (reset_device_state ∷ set_link_active true ∷ []) in
    after_event players serials later (method_finished pause_operation true) ≡ later
stale_ignored_example =
    stale_ignored players serials playing_state pause_operation (set_link_active true ∷ []) true
      (sym playing_flags.2) (omega (arith, playing_flags.2)) (omega arith)

pause_all-resume_example :
    count
      (plays mpv)
      (media_control_resume players serials
        (media_control_pause_all players serials playing_state).0).1
    ≡ one_if (
        reaches playing_state.disposed mpv
        && (pause_reason_contains players serials playing_state.ear mpv
            || player_list_contains
                (media_playback_tracker_dup_playing_ids players playing_state.playback_tracker)
                mpv)
        && not (pause_reason_contains players serials playing_state.handoff mpv))
pause_all-resume_example =
    pause_all-resume players serials serials_laws playing_state mpv playing_flags.0 playing_flags.1

explicit_start_example :
    let s =
      on_mpris_properties_changed players serials
        (after_events stopped_events)
        mpv
        (some (codes "Playing")) in
    (pause_reason_contains players serials s.0.ear mpv ≡ (
      pause_reason_contains players serials (after_events stopped_events).ear mpv
      && not (bytes_equal mpv mpv)))
    × (pause_reason_contains players serials s.0.handoff mpv ≡ (
        pause_reason_contains players serials (after_events stopped_events).handoff mpv
        && not (bytes_equal mpv mpv)))
    × (count (plays mpv) s.1
        ≡ one_if (
            not (after_events stopped_events).disposed
            && (is_some (serials.lookup (after_events stopped_events).ear.pending_pauses mpv)
                || is_some
                    (serials.lookup (after_events stopped_events).handoff.pending_pauses mpv))))
explicit_start_example =
    explicit_start players serials serials_laws (after_events stopped_events) mpv mpv
      (run-IsConsistent players serials serials_laws stopped_events) refl mpv_silent
