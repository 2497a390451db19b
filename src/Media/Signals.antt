-- ===== src/Media/Signals.antt =====
-- The handlers of the players' signals and answers.
use earport_handoff.Base.{
  ℕ, Bool, true, false, not, ◌&&◌, ◌||◌, Option, none, some, List, [], ◌∷◌, ◌==◌, bytes_equal,
  has_prefix, if◌then◌else◌,
}
use earport_handoff.Base.Text.{Bytes, codes, is_nonempty}
use earport_handoff.HashTable.{StringTable}
use earport_handoff.Tracker.{
  Player, MediaPlaybackTransition, no_transition, started, all_stopped,
  media_playback_tracker_update, media_playback_tracker_remove,
  media_playback_tracker_player_is_playing,
}
use earport_handoff.Media.State.{
  MprisStatusOperation, Effect, get_status, playback_started, playback_stopped,
  player_list_contains, next_serial, is_some, serial_of, MediaControl, Step, and_then, forget,
}
use earport_handoff.Media.Calls.{player_play_async}

-- an aggregate transition, as the two tests of `handle_playback_update` read it
abbrev pub is_started : MediaPlaybackTransition → Bool
is_started started = true
is_started _ = false

abbrev pub is_all_stopped : MediaPlaybackTransition → Bool
is_all_stopped all_stopped = true
is_all_stopped _ = false

-- the callbacks; main sets both before any handler runs, and the media control drops them when it
-- is freed
abbrev pub notify_playback : Bool → MediaPlaybackTransition → Bool → List Effect
notify_playback callbacks_set transition player_started =
    if is_started transition || player_started
    then (if callbacks_set then playback_started ∷ [] else [])
    else if is_all_stopped transition && callbacks_set
    then playback_stopped ∷ []
    else []

abbrev pub is_playing_status : Bytes → Bool
is_playing_status status = bytes_equal status (codes "Playing")

abbrev pub mpris_dbus_name_prefix : Bytes
mpris_dbus_name_prefix = codes "org.mpris.MediaPlayer2."

module _ (G : StringTable Player) (P : StringTable ℕ) where
  -- A player with no pause, owned or pending, is left alone.
  unfoldable pub reconcile_explicit_player_start : MediaControl G P → Bytes → Step G P
  unfolding player_play_async
  reconcile_explicit_player_start mc player_name =
      let ear_pause_pending = is_some (P.lookup mc.ear.pending_pauses player_name) in
      let ear_pause_owned = player_list_contains mc.ear.paused_players player_name in
      let handoff_pause_pending = is_some (P.lookup mc.handoff.pending_pauses player_name) in
      let handoff_pause_owned = player_list_contains mc.handoff.paused_players player_name in
      let cleared : MediaControl G P = record mc {
        ear = forget G P mc.ear player_name;
        handoff = forget G P mc.handoff player_name;
      } in
      if not (is_nonempty (some player_name))
      then (mc, [])
      else if not ear_pause_pending
          && not ear_pause_owned
          && not handoff_pause_pending
          && not handoff_pause_owned
      then (mc, [])
      else (
        cleared,
        if ear_pause_pending || handoff_pause_pending
            then player_play_async G P mc player_name
            else [],
      )

  unfoldable pub handle_playback_update :
      MediaControl G P → MediaPlaybackTransition → Bytes → Bool → Step G P
  unfolding reconcile_explicit_player_start
  handle_playback_update mc transition player_name player_started =
      and_then G P
        (if player_started then reconcile_explicit_player_start mc player_name else (mc, []))
        (λ mc. (mc, notify_playback (not mc.disposed) transition player_started))

  -- an update of the tracker by a status, and what follows unless it is suppressed
  abbrev pub apply_status : MediaControl G P → Bytes → Bytes → Bool → Step G P
  apply_status mc player_name status suppress =
      let playing = is_playing_status status in
      let was_playing =
        media_playback_tracker_player_is_playing G mc.playback_tracker (some player_name) in
      let updated =
        media_playback_tracker_update G mc.playback_tracker (some player_name) playing in
      let tracked : MediaControl G P = record mc { playback_tracker = updated.0 } in
      if suppress
      then (tracked, [])
      else handle_playback_update tracked updated.1 player_name (playing && not was_playing)

  -- The status is that of the player's interface, `none` where the signal has none; the update is
  -- then handled with no transition and does nothing.
  unfoldable pub on_mpris_properties_changed : MediaControl G P → Bytes → Option Bytes → Step G P
  unfolding handle_playback_update
  on_mpris_properties_changed mc sender_name none = (mc, [])
  on_mpris_properties_changed mc sender_name (some status) =
      apply_status
        (record mc { pending_status_queries = P.remove mc.pending_status_queries sender_name })
        sender_name status false

  unfoldable pub query_player_playback_status_async : MediaControl G P → Bytes → Bool → Step G P
  query_player_playback_status_async mc player_name suppress_transition =
      let serial = next_serial mc.next_operation_serial in
      if mc.disposed || not (is_nonempty (some player_name)) then (mc, []) else (
        record mc {
          next_operation_serial = serial;
          pending_status_queries = P.replace mc.pending_status_queries player_name serial;
        },
        get_status (record {
          serial = serial;
          suppress_transition = suppress_transition;
          player_name = player_name;
        })
            ∷ [],
      )

  -- an answer with no valid status removes the player
  abbrev pub drop_status : MediaControl G P → Bytes → Bool → Step G P
  drop_status mc player_name suppress =
      let removed = media_playback_tracker_remove G mc.playback_tracker (some player_name) in
      let tracked : MediaControl G P = record mc { playback_tracker = removed.0 } in
      if suppress then (tracked, []) else handle_playback_update tracked removed.1 player_name false

  abbrev pub apply_answer : MediaControl G P → Bytes → Option Bytes → Bool → Step G P
  apply_answer mc player_name none suppress = drop_status mc player_name suppress
  apply_answer mc player_name (some status) suppress = apply_status mc player_name status suppress

  -- The answer is the status, `none` for an error or another type.
  unfoldable pub on_player_status_finished :
      MediaControl G P → MprisStatusOperation → Option Bytes → Step G P
  unfolding handle_playback_update
  on_player_status_finished mc operation answer =
      let name = operation.player_name in
      let value = serial_of (P.lookup mc.pending_status_queries name) in
      let answered : MediaControl G P = record mc {
        pending_status_queries = P.remove mc.pending_status_queries name;
      } in
      if not mc.disposed && (value == operation.serial)
      then apply_answer answered name answer operation.suppress_transition
      else (mc, [])

  -- the part on the old owner: the state, whether it was playing, and the transition
  abbrev pub release_owner :
      MediaControl G P → Bytes → MediaControl G P × Bool × MediaPlaybackTransition
  release_owner mc [] = (mc, false, no_transition)
  release_owner mc (c ∷ cs) =
      let removed = media_playback_tracker_remove G mc.playback_tracker (some (c ∷ cs)) in
      (
        record mc {
          playback_tracker = removed.0;
          ear = forget G P mc.ear (c ∷ cs);
          handoff = forget G P mc.handoff (c ∷ cs);
          pending_status_queries = P.remove mc.pending_status_queries (c ∷ cs);
        },
        media_playback_tracker_player_is_playing G mc.playback_tracker (some (c ∷ cs)),
        removed.1,
      )

  -- the part on the new owner; its update's transition is not used
  abbrev pub adopt_owner : MediaControl G P → Bytes → Bool → MediaPlaybackTransition → Step G P
  adopt_owner mc [] was_playing removal = handle_playback_update mc removal [] false
  adopt_owner mc (c ∷ cs) was_playing removal =
      let updated =
        media_playback_tracker_update G mc.playback_tracker (some (c ∷ cs)) was_playing in
      query_player_playback_status_async (record mc { playback_tracker = updated.0 }) (c ∷ cs) false

  unfoldable pub on_name_owner_changed : MediaControl G P → Bytes → Bytes → Bytes → Step G P
  unfolding handle_playback_update query_player_playback_status_async
  on_name_owner_changed mc name old_owner new_owner =
      let (released, was_playing, transition) = release_owner mc old_owner in
      if has_prefix name mpris_dbus_name_prefix
      then adopt_owner released new_owner was_playing transition
      else (mc, [])
