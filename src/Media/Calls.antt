-- ===== src/Media/Calls.antt =====
-- Pause and Play calls, their answers, and resuming.
use earport_handoff.Base.{
  ℕ, Bool, true, false, not, ◌&&◌, ◌||◌, Option, none, some, List, [], ◌∷◌, ◌++◌, ◌==◌,
  if◌then◌else◌,
}
use earport_handoff.Base.Text.{Bytes, is_nonempty}
use earport_handoff.HashTable.{StringTable}
use earport_handoff.Tracker.{Player, media_playback_tracker_dup_playing_ids}
use earport_handoff.Media.State.{
  MprisAction, pause_for_ear, pause_for_handoff, play, is_pause, MprisOperation, Effect, call,
  player_list_contains, player_list_add_unique, next_serial, is_some, serial_of, Pauses,
  MediaControl, Step, and_then, pauses_for_action, set_pauses, no_pauses, pause_reason_contains,
}

-- a loop that adds what is not yet seen
abbrev pub add_unseen : List Bytes → List Bytes → List Bytes
add_unseen targets [] = targets
add_unseen targets (name ∷ names) = add_unseen (player_list_add_unique targets name) names

abbrev pub keys : List (Bytes × ℕ) → List Bytes
keys [] = []
keys ((key, value) ∷ rest) = key ∷ keys rest

module _ (G : StringTable Player) (P : StringTable ℕ) where
  -- The call that it sends, if any, and whether it sent one. The connection is never NULL.
  unfoldable pub queue_mpris_method :
      MediaControl G P → Bytes → MprisAction → ℕ → List Effect × Bool
  queue_mpris_method mc player_name action pending_serial =
      if mc.disposed || not (is_nonempty (some player_name)) then ([], false) else (
        call (record {
          generation = mc.mpris_generation;
          pending_serial = pending_serial;
          action = action;
          player_name = player_name;
        })
            ∷ [],
        true,
      )

  -- the pending entry of a new Pause is removed again if the call is not sent
  unfoldable pub pause_new : MediaControl G P → Bytes → MprisAction → Pauses G P → Step G P × Bool
  unfolding queue_mpris_method
  pause_new mc player_name action pauses =
      let serial = next_serial mc.next_operation_serial in
      let pending = P.replace pauses.pending_pauses player_name serial in
      let counted = record mc { next_operation_serial = serial } in
      let (effects, sent) = queue_mpris_method counted player_name action serial in
      if sent
      then (
        (set_pauses G P counted action (record pauses { pending_pauses = pending }), effects),
        true,
      )
      else (
        (
          set_pauses G P counted action
              (record pauses { pending_pauses = P.remove pending player_name }),
          effects,
        ),
        false,
      )

  -- `player_pause_async` of a pause
  unfoldable pub pause_for : MediaControl G P → Bytes → MprisAction → Pauses G P → Step G P × Bool
  unfolding queue_mpris_method pause_new
  pause_for mc player_name action pauses =
      let (effects, sent) = queue_mpris_method mc player_name action 0 in
      if player_list_contains pauses.paused_players player_name
      then ((mc, effects), sent)
      else if is_some (P.lookup pauses.pending_pauses player_name)
      then ((mc, []), true)
      else pause_new mc player_name action pauses

  abbrev pub pause_if :
      MediaControl G P → Bytes → MprisAction → Option (Pauses G P) → Step G P × Bool
  pause_if mc player_name action none = ((mc, []), false)
  pause_if mc player_name action (some pauses) = pause_for mc player_name action pauses

  unfoldable pub player_pause_async : MediaControl G P → Bytes → MprisAction → Step G P × Bool
  unfolding pause_for
  player_pause_async mc player_name action =
      pause_if mc player_name action (pauses_for_action G P mc action)

  unfoldable pub player_play_async : MediaControl G P → Bytes → List Effect
  unfolding queue_mpris_method
  player_play_async mc player_name = (queue_mpris_method mc player_name play 0).0

  -- the answer to a Pause that is still pending
  unfoldable pub acknowledge : Pauses G P → MprisOperation → Bool → Pauses G P
  acknowledge pauses operation successful =
      if serial_of (P.lookup pauses.pending_pauses operation.player_name)
        == operation.pending_serial
      then record {
        paused_players =
            if successful
            then player_list_add_unique pauses.paused_players operation.player_name
            else pauses.paused_players;
        pending_pauses = P.remove pauses.pending_pauses operation.player_name;
      }
      else pauses

  abbrev pub acknowledge_if :
      MediaControl G P → MprisOperation → Bool → Option (Pauses G P) → MediaControl G P
  acknowledge_if mc operation successful none = mc
  acknowledge_if mc operation successful (some pauses) =
      set_pauses G P mc operation.action (acknowledge pauses operation successful)

  unfoldable pub on_mpris_method_finished :
      MediaControl G P → MprisOperation → Bool → MediaControl G P
  unfolding acknowledge
  on_mpris_method_finished mc operation successful =
      if (not mc.disposed && (operation.generation == mc.mpris_generation))
        && is_pause operation.action
        && not (operation.pending_serial == 0)
      then acknowledge_if mc operation successful (pauses_for_action G P mc operation.action)
      else mc

  -- the loop over the players that play
  unfoldable pub pause_players : MediaControl G P → MprisAction → List Bytes → Step G P
  unfolding player_pause_async
  pause_players mc action [] = (mc, [])
  pause_players mc action (player_name ∷ players) =
      and_then G P (player_pause_async mc player_name action).0
        (λ mc. pause_players mc action players)

  -- `preserve_existing` is true in every call
  unfoldable pub pause_all_into : MediaControl G P → MprisAction → Step G P
  unfolding pause_players
  pause_all_into mc action =
      pause_players mc action (media_playback_tracker_dup_playing_ids G mc.playback_tracker)

  unfoldable pub media_control_pause_all : MediaControl G P → Step G P
  unfolding pause_all_into
  media_control_pause_all mc =
      if mc.airpods_link_active && mc.airpods_audio_active
      then pause_all_into mc pause_for_ear
      else (mc, [])

  unfoldable pub media_control_pause_all_for_handoff : MediaControl G P → Step G P
  unfolding pause_all_into
  media_control_pause_all_for_handoff mc =
      if mc.airpods_link_active then pause_all_into mc pause_for_handoff else (mc, [])

  unfoldable pub dup_pause_targets : Pauses G P → List Bytes
  dup_pause_targets pauses =
      add_unseen (add_unseen [] pauses.paused_players) (keys (P.entries pauses.pending_pauses))

  -- the loop over the targets
  unfoldable pub play_targets : MediaControl G P → List Bytes → List Effect
  unfolding player_play_async
  play_targets mc [] = []
  play_targets mc (player_name ∷ targets) =
      (if not (pause_reason_contains G P mc.handoff player_name)
        then player_play_async mc player_name
        else [])
      ++ play_targets mc targets

  unfoldable pub media_control_resume : MediaControl G P → Step G P
  unfolding dup_pause_targets play_targets
  media_control_resume mc =
      (record mc { ear = no_pauses G P }, play_targets mc (dup_pause_targets mc.ear))
