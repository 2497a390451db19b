-- ===== src/Media/Held/Handlers.antt =====
-- The pauses that are held are consistent after the handlers of signals and answers, and after the public operations.
use earport_handoff.Base.{
  subst, ℕ, ◌≡◌, refl, sym, Bool, true, false, not, ◌&&◌, ◌||◌, Option, none, some, [], ◌∷◌, ◌==◌,
  has_prefix,
}
use earport_handoff.Base.Text.{Bytes, is_nonempty}
use earport_handoff.HashTable.{StringTable, StringTableLaws}
use earport_handoff.Tracker.{Player, MediaPlaybackTransition}
use earport_handoff.Wear.{
  wear_policy_mode_change, EarPauseMode, WearPolicyAction, none as no_action, pause,
  resume as resume_action,
}
use earport_handoff.Media.{
  ear_action, same_bool, mpris_dbus_name_prefix, MprisStatusOperation, MediaControl,
  player_list_contains, is_some, serial_of, forget, reconcile_explicit_player_start,
  handle_playback_update, on_mpris_properties_changed, on_player_status_finished,
  query_player_playback_status_async, on_name_owner_changed, release_owner, adopt_owner,
  apply_status, apply_answer, perform_action, media_control_set_ear_pause_mode,
  media_control_on_ear_detection_changed, media_control_set_airpods_link_active,
  media_control_reset_device_state, media_control_free,
}
use earport_handoff.Media.Held.{
  if-IsConsistent, AreConsistent, IsConsistent, no_pauses-AreConsistent, forget-AreConsistent,
  same-IsConsistent,
}
use earport_handoff.Media.Held.Calls.{pause_all-IsConsistent, resume-IsConsistent}

module _ (G : StringTable Player) (P : StringTable ℕ) (laws : StringTableLaws P) where
  forgotten-IsConsistent :
      (mc mc' : MediaControl G P) (n : Bytes)
      → mc'.ear ≡ forget G P mc.ear n
      → mc'.handoff ≡ forget G P mc.handoff n
      → IsConsistent G P mc
      → IsConsistent G P mc'
  forgotten-IsConsistent mc mc' n e f v = record {
    ear_consistent =
        subst (AreConsistent G P) (sym e) (forget-AreConsistent G P laws mc.ear n v.ear_consistent);
    handoff_consistent =
        subst (AreConsistent G P) (sym f)
          (forget-AreConsistent G P laws mc.handoff n v.handoff_consistent);
  }

  reconcile-IsConsistent :
      (mc : MediaControl G P) (n : Bytes)
      → IsConsistent G P mc
      → IsConsistent G P (reconcile_explicit_player_start G P mc n).0
  unfolding reconcile_explicit_player_start
  reconcile-IsConsistent mc n v = if-IsConsistent G P laws (not (is_nonempty (some n))) _ _ v (
      if-IsConsistent G P laws
        (not (is_some (P.lookup mc.ear.pending_pauses n))
          && not (player_list_contains mc.ear.paused_players n)
          && not (is_some (P.lookup mc.handoff.pending_pauses n))
          && not (player_list_contains mc.handoff.paused_players n))
        _ _ v (forgotten-IsConsistent mc _ n refl refl v))

  update-IsConsistent :
      (mc : MediaControl G P) (t : MediaPlaybackTransition) (n : Bytes) (started : Bool)
      → IsConsistent G P mc
      → IsConsistent G P (handle_playback_update G P mc t n started).0
  unfolding handle_playback_update
  update-IsConsistent mc t n true v = reconcile-IsConsistent mc n v
  update-IsConsistent mc t n false v = v

  apply_status-IsConsistent :
      (mc : MediaControl G P) (n status : Bytes) (suppress : Bool)
      → IsConsistent G P mc
      → IsConsistent G P (apply_status G P mc n status suppress).0
  apply_status-IsConsistent mc n status true v = same-IsConsistent G P laws mc _ refl refl v
  apply_status-IsConsistent mc n status false v =
      update-IsConsistent _ _ n _ (same-IsConsistent G P laws mc _ refl refl v)

  apply_answer-IsConsistent :
      (mc : MediaControl G P) (n : Bytes) (answer : Option Bytes) (suppress : Bool)
      → IsConsistent G P mc
      → IsConsistent G P (apply_answer G P mc n answer suppress).0
  apply_answer-IsConsistent mc n (some status) suppress v =
      apply_status-IsConsistent mc n status suppress v
  apply_answer-IsConsistent mc n none true v = same-IsConsistent G P laws mc _ refl refl v
  apply_answer-IsConsistent mc n none false v =
      update-IsConsistent _ _ n false (same-IsConsistent G P laws mc _ refl refl v)

  pub properties_changed-IsConsistent :
      (mc : MediaControl G P) (n : Bytes) (status : Option Bytes)
      → IsConsistent G P mc
      → IsConsistent G P (on_mpris_properties_changed G P mc n status).0
  unfolding on_mpris_properties_changed
  properties_changed-IsConsistent mc n none v = v
  properties_changed-IsConsistent mc n (some status) v =
      apply_status-IsConsistent _ n status false (same-IsConsistent G P laws mc _ refl refl v)

  pub status_finished-IsConsistent :
      (mc : MediaControl G P) (op : MprisStatusOperation) (answer : Option Bytes)
      → IsConsistent G P mc
      → IsConsistent G P (on_player_status_finished G P mc op answer).0
  unfolding on_player_status_finished
  status_finished-IsConsistent mc op answer v =
      if-IsConsistent G P laws
        (not mc.disposed
          && (serial_of (P.lookup mc.pending_status_queries op.player_name) == op.serial))
        _ _
        (apply_answer-IsConsistent _ op.player_name answer op.suppress_transition
          (same-IsConsistent G P laws mc _ refl refl v))
        v

  pub query-IsConsistent :
      (mc : MediaControl G P) (n : Bytes) (suppress : Bool)
      → IsConsistent G P mc
      → IsConsistent G P (query_player_playback_status_async G P mc n suppress).0
  unfolding query_player_playback_status_async
  query-IsConsistent mc n suppress v =
      if-IsConsistent G P laws (mc.disposed || not (is_nonempty (some n))) _ _ v
        (same-IsConsistent G P laws mc _ refl refl v)

  release-IsConsistent :
      (mc : MediaControl G P) (n : Bytes)
      → IsConsistent G P mc
      → IsConsistent G P (release_owner G P mc n).0
  release-IsConsistent mc [] v = v
  release-IsConsistent mc (c ∷ cs) v = forgotten-IsConsistent mc _ (c ∷ cs) refl refl v

  adopt-IsConsistent :
      (mc : MediaControl G P) (n : Bytes) (was : Bool) (t : MediaPlaybackTransition)
      → IsConsistent G P mc
      → IsConsistent G P (adopt_owner G P mc n was t).0
  adopt-IsConsistent mc [] was t v = update-IsConsistent mc t [] false v
  adopt-IsConsistent mc (c ∷ cs) was t v =
      query-IsConsistent _ (c ∷ cs) false (same-IsConsistent G P laws mc _ refl refl v)

  pub owner-IsConsistent :
      (mc : MediaControl G P) (name old new : Bytes)
      → IsConsistent G P mc
      → IsConsistent G P (on_name_owner_changed G P mc name old new).0
  unfolding on_name_owner_changed
  owner-IsConsistent mc name old new v =
      if-IsConsistent G P laws (has_prefix name mpris_dbus_name_prefix) _ _
        (adopt-IsConsistent _ new _ _ (release-IsConsistent mc old v)) v

  perform-IsConsistent :
      (mc : MediaControl G P) (a : WearPolicyAction) (allowed : Bool)
      → IsConsistent G P mc
      → IsConsistent G P (perform_action G P mc a allowed).0
  perform-IsConsistent mc no_action allowed v = v
  perform-IsConsistent mc pause true v = (pause_all-IsConsistent G P laws mc v).0
  perform-IsConsistent mc pause false v = v
  perform-IsConsistent mc resume_action allowed v = resume-IsConsistent G P laws mc v

  pub mode-IsConsistent :
      (mc : MediaControl G P) (mode : EarPauseMode)
      → IsConsistent G P mc
      → IsConsistent G P (media_control_set_ear_pause_mode G P mc mode).0
  unfolding media_control_set_ear_pause_mode
  mode-IsConsistent mc mode v =
      perform-IsConsistent (record mc { ear_pause_mode = mode })
        (wear_policy_mode_change mc.ear_pause_mode mode mc.prev_state_valid mc.prev_left_in_ear
          mc.prev_right_in_ear)
        true (same-IsConsistent G P laws mc (record mc { ear_pause_mode = mode }) refl refl v)

  pub ear-IsConsistent :
      (mc : MediaControl G P) (left right : Bool)
      → IsConsistent G P mc
      → IsConsistent G P (media_control_on_ear_detection_changed G P mc left right).0
  unfolding media_control_on_ear_detection_changed
  ear-IsConsistent mc left right v =
      let seen : MediaControl G P = record mc {
        prev_left_in_ear = left;
        prev_right_in_ear = right;
        prev_state_valid = true;
      } in
      if-IsConsistent G P laws (not mc.airpods_link_active) (mc, [])
        (perform_action G P seen (ear_action G P mc left right) mc.airpods_audio_active) v
        (perform-IsConsistent seen (ear_action G P mc left right) mc.airpods_audio_active
          (same-IsConsistent G P laws mc seen refl refl v))

  pub link-IsConsistent :
      (mc : MediaControl G P) (active : Bool)
      → IsConsistent G P mc
      → IsConsistent G P (media_control_set_airpods_link_active G P mc active).0
  unfolding media_control_set_airpods_link_active
  link-IsConsistent mc active v =
      if-IsConsistent G P laws (same_bool mc.airpods_link_active active) _ _ v (
        if-IsConsistent G P laws active _ _ (same-IsConsistent G P laws mc _ refl refl v)
          (same-IsConsistent G P laws mc _ refl refl v))

  pub reset-IsConsistent :
      (mc : MediaControl G P) → IsConsistent G P (media_control_reset_device_state G P mc).0
  unfolding media_control_reset_device_state
  reset-IsConsistent mc = record {
    ear_consistent = no_pauses-AreConsistent G P laws;
    handoff_consistent = no_pauses-AreConsistent G P laws;
  }

  pub free-IsConsistent :
      (mc : MediaControl G P) → IsConsistent G P mc → IsConsistent G P (media_control_free G P mc).0
  unfolding media_control_free
  free-IsConsistent mc v =
      if-IsConsistent G P laws mc.disposed _ _ v (same-IsConsistent G P laws mc _ refl refl v)
