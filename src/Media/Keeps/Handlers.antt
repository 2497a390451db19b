-- ===== src/Media/Keeps/Handlers.antt =====
-- The handlers keep the generation and the link, where they do not set them.
use earport_handoff.Base.{
  ℕ, ◌≡◌, refl, inl, inr, Bool, true, false, not, ◌&&◌, ◌||◌, Option, none, some, [], ◌∷◌, arith,
  Bool-cases, if◌then◌else◌, ◌==◌, has_prefix,
}
use earport_handoff.Base.Text.{Bytes, CString, is_nonempty}
use earport_handoff.HashTable.{StringTable}
use earport_handoff.Tracker.{Player, MediaPlaybackTransition}
use earport_handoff.Wear.{
  EarPauseMode, WearPolicyAction, none as no_action, pause, resume, wear_policy_mode_change,
}
use earport_handoff.Media.{
  MprisStatusOperation, MediaControl, player_list_contains, is_some, serial_of, notify_playback,
  reconcile_explicit_player_start, handle_playback_update, apply_status,
  on_mpris_properties_changed, query_player_playback_status_async, apply_answer,
  on_player_status_finished, release_owner, adopt_owner, on_name_owner_changed, perform_action,
  media_control_set_ear_pause_mode, ear_action, media_control_on_ear_detection_changed,
  player_play_async, media_control_can_claim_or_route_audio, media_control_reclaim_audio,
  mpris_dbus_name_prefix,
}
use earport_handoff.Media.Keeps.{
  Keeps, all_allowed, if-Keeps, done-Keeps, same-Keeps, asks-Keeps, after-Keeps, both-Keeps,
}
use earport_handoff.Media.Keeps.Calls.{play-allowed, pause_all-Keeps, resume-Keeps}

notify-allowed :
    (linked audio set : Bool) (t : MediaPlaybackTransition) (b : Bool)
    → all_allowed linked audio (notify_playback set t b) ≡ true
notify-allowed linked audio set t b = ground arith

module _ (G : StringTable Player) (P : StringTable ℕ) where
  play_if-allowed :
      (mc : MediaControl G P) (n : Bytes) (b : Bool)
      → all_allowed mc.airpods_link_active mc.airpods_audio_active
          (if b then player_play_async G P mc n else [])
        ≡ true
  play_if-allowed mc n true = play-allowed G P mc.airpods_link_active mc.airpods_audio_active mc n
  play_if-allowed mc n false = refl

  notify-Keeps :
      (mc : MediaControl G P) (t : MediaPlaybackTransition) (b : Bool)
      → Keeps G P mc (mc, notify_playback (not mc.disposed) t b)
  notify-Keeps mc t b =
      asks-Keeps G P mc mc _ (done-Keeps G P mc)
        (notify-allowed mc.airpods_link_active mc.airpods_audio_active (not mc.disposed) t b)

  reconcile-Keeps :
      (mc : MediaControl G P) (n : Bytes) → Keeps G P mc (reconcile_explicit_player_start G P mc n)
  unfolding reconcile_explicit_player_start
  reconcile-Keeps mc n =
      let pending =
        is_some (P.lookup mc.ear.pending_pauses n)
        || is_some (P.lookup mc.handoff.pending_pauses n) in
      if-Keeps G P mc (not (is_nonempty (some n))) _ _ (λ h. done-Keeps G P mc)
        (λ h.
          if-Keeps G P mc
            (not (is_some (P.lookup mc.ear.pending_pauses n))
              && not (player_list_contains mc.ear.paused_players n)
              && not (is_some (P.lookup mc.handoff.pending_pauses n))
              && not (player_list_contains mc.handoff.paused_players n))
            _ _ (λ h. done-Keeps G P mc)
            (λ h.
              asks-Keeps G P mc _ _ (same-Keeps G P mc _ refl refl refl)
                (play_if-allowed mc n pending)))

  update-Keeps :
      (mc : MediaControl G P) (t : MediaPlaybackTransition) (n : Bytes) (b : Bool)
      → Keeps G P mc (handle_playback_update G P mc t n b)
  unfolding handle_playback_update
  update-Keeps mc t n b =
      let begins =
        if-Keeps G P mc b (reconcile_explicit_player_start G P mc n) (mc, [])
          (λ h. reconcile-Keeps mc n) (λ h. done-Keeps G P mc) in
      both-Keeps G P mc _ (λ mc. (mc, notify_playback (not mc.disposed) t b)) begins
        (notify-Keeps _ t b)

  apply_status-Keeps :
      (mc : MediaControl G P) (n status : Bytes) (suppress : Bool)
      → Keeps G P mc (apply_status G P mc n status suppress)
  apply_status-Keeps mc n status true = same-Keeps G P mc _ refl refl refl
  apply_status-Keeps mc n status false =
      after-Keeps G P mc _ _ (same-Keeps G P mc _ refl refl refl) (update-Keeps _ _ n _)

  apply_answer-Keeps :
      (mc : MediaControl G P) (n : Bytes) (answer : Option Bytes) (suppress : Bool)
      → Keeps G P mc (apply_answer G P mc n answer suppress)
  apply_answer-Keeps mc n (some status) suppress = apply_status-Keeps mc n status suppress
  apply_answer-Keeps mc n none true = same-Keeps G P mc _ refl refl refl
  apply_answer-Keeps mc n none false =
      after-Keeps G P mc _ _ (same-Keeps G P mc _ refl refl refl) (update-Keeps _ _ n false)

  pub properties_changed-Keeps :
      (mc : MediaControl G P) (n : Bytes) (status : Option Bytes)
      → Keeps G P mc (on_mpris_properties_changed G P mc n status)
  unfolding on_mpris_properties_changed
  properties_changed-Keeps mc n none = done-Keeps G P mc
  properties_changed-Keeps mc n (some status) =
      after-Keeps G P mc _ _ (same-Keeps G P mc _ refl refl refl)
        (apply_status-Keeps _ n status false)

  pub status_finished-Keeps :
      (mc : MediaControl G P) (op : MprisStatusOperation) (answer : Option Bytes)
      → Keeps G P mc (on_player_status_finished G P mc op answer)
  unfolding on_player_status_finished
  status_finished-Keeps mc op answer =
      if-Keeps G P mc
        (not mc.disposed
          && (serial_of (P.lookup mc.pending_status_queries op.player_name) == op.serial))
        _ _
        (λ h.
          after-Keeps G P mc _ _ (same-Keeps G P mc _ refl refl refl)
            (apply_answer-Keeps _ op.player_name answer op.suppress_transition))
        (λ h. done-Keeps G P mc)

  pub query-Keeps :
      (mc : MediaControl G P) (n : Bytes) (suppress : Bool)
      → Keeps G P mc (query_player_playback_status_async G P mc n suppress)
  unfolding query_player_playback_status_async
  query-Keeps mc n suppress =
      if-Keeps G P mc (mc.disposed || not (is_nonempty (some n))) _ _ (λ h. done-Keeps G P mc)
        (λ h. asks-Keeps G P mc _ _ (same-Keeps G P mc _ refl refl refl) refl)

  release-Keeps :
      (mc : MediaControl G P) (n : Bytes) → Keeps G P mc ((release_owner G P mc n).0, [])
  release-Keeps mc [] = done-Keeps G P mc
  release-Keeps mc (c ∷ cs) = same-Keeps G P mc _ refl refl refl

  adopt-Keeps :
      (mc : MediaControl G P) (n : Bytes) (was : Bool) (t : MediaPlaybackTransition)
      → Keeps G P mc (adopt_owner G P mc n was t)
  adopt-Keeps mc [] was t = update-Keeps mc t [] false
  adopt-Keeps mc (c ∷ cs) was t =
      after-Keeps G P mc _ _ (same-Keeps G P mc _ refl refl refl) (query-Keeps _ (c ∷ cs) false)

  pub owner-Keeps :
      (mc : MediaControl G P) (name old new : Bytes)
      → Keeps G P mc (on_name_owner_changed G P mc name old new)
  unfolding on_name_owner_changed
  owner-Keeps mc name old new =
      if-Keeps G P mc (has_prefix name mpris_dbus_name_prefix) _ _
        (λ h. after-Keeps G P mc _ _ (release-Keeps mc old) (adopt-Keeps _ new _ _))
        (λ h. done-Keeps G P mc)

  perform-Keeps :
      (mc : MediaControl G P) (a : WearPolicyAction) (allowed : Bool)
      → Keeps G P mc (perform_action G P mc a allowed)
  perform-Keeps mc no_action allowed = done-Keeps G P mc
  perform-Keeps mc pause true = pause_all-Keeps G P mc
  perform-Keeps mc pause false = done-Keeps G P mc
  perform-Keeps mc resume allowed = resume-Keeps G P mc

  pub mode-Keeps :
      (mc : MediaControl G P) (mode : EarPauseMode)
      → Keeps G P mc (media_control_set_ear_pause_mode G P mc mode)
  unfolding media_control_set_ear_pause_mode
  mode-Keeps mc mode =
      after-Keeps G P mc (record mc { ear_pause_mode = mode }) _
        (same-Keeps G P mc _ refl refl refl)
        (perform-Keeps (record mc { ear_pause_mode = mode })
          (wear_policy_mode_change mc.ear_pause_mode mode mc.prev_state_valid mc.prev_left_in_ear
            mc.prev_right_in_ear)
          true)

  pub ear-Keeps :
      (mc : MediaControl G P) (left right : Bool)
      → Keeps G P mc (media_control_on_ear_detection_changed G P mc left right)
  unfolding media_control_on_ear_detection_changed
  ear-Keeps mc left right =
      let seen : MediaControl G P = record mc {
        prev_left_in_ear = left;
        prev_right_in_ear = right;
        prev_state_valid = true;
      } in
      if-Keeps G P mc (not mc.airpods_link_active) _ _ (λ h. done-Keeps G P mc)
        (λ h.
          after-Keeps G P mc seen _ (same-Keeps G P mc seen refl refl refl)
            (perform-Keeps seen (ear_action G P mc left right) mc.airpods_audio_active))

  pub reclaim-Keeps :
      (mc : MediaControl G P) (address : CString)
      → Keeps G P mc (mc, media_control_reclaim_audio G P mc address)
  unfolding media_control_reclaim_audio
  reclaim-Keeps mc address =
      elim (Bool-cases (not (media_control_can_claim_or_route_audio G P mc))) [
        | inl h ↦ simp h (done-Keeps G P mc)
        | inr h ↦ simp h (asks-Keeps G P mc mc _ (done-Keeps G P mc) refl)
      ]
