-- ===== src/Media/Keeps/Calls.antt =====
-- Pause and Play calls keep the generation and the link, and a Pause is sent where it is allowed.
use earport_handoff.Base.{
  ℕ, ◌≡◌, refl, inl, inr, Bool, true, false, not, ◌&&◌, ◌||◌, Option, none, some, List, [], ◌∷◌,
  Bool-cases, if◌then◌else◌, ◌==◌,
}
use earport_handoff.Base.Text.{Bytes, is_nonempty}
use earport_handoff.HashTable.{StringTable}
use earport_handoff.Tracker.{Player, media_playback_tracker_dup_playing_ids}
use earport_handoff.Media.{
  MprisAction, pause_for_ear, pause_for_handoff, play, is_pause, MprisOperation, Pauses,
  MediaControl, Step, player_list_contains, is_some, pauses_for_action, set_pauses, next_serial,
  queue_mpris_method, pause_new, pause_for, pause_if, player_pause_async, player_play_async,
  pause_players, pause_all_into, media_control_pause_all, media_control_pause_all_for_handoff,
  acknowledge, acknowledge_if, on_mpris_method_finished, play_targets, dup_pause_targets,
  media_control_resume, no_pauses, pause_reason_contains,
}
use earport_handoff.Media.Keeps.{
  Keeps, action_allowed, all_allowed, all_allowed-append, if-Keeps, done-Keeps, same-Keeps,
  asks-Keeps, after-Keeps, both-Keeps,
}

module _ (G : StringTable Player) (P : StringTable ℕ) where
  set_pauses-Keeps :
      (mc : MediaControl G P) (a : MprisAction) (p : Pauses G P)
      → Keeps G P mc (set_pauses G P mc a p, [])
  set_pauses-Keeps mc pause_for_ear p = same-Keeps G P mc _ refl refl refl
  set_pauses-Keeps mc pause_for_handoff p = same-Keeps G P mc _ refl refl refl
  set_pauses-Keeps mc play p = done-Keeps G P mc

  queue-allowed :
      (linked audio : Bool) (mc : MediaControl G P) (n : Bytes) (a : MprisAction) (serial : ℕ)
      → action_allowed linked audio a ≡ true
      → all_allowed linked audio (queue_mpris_method G P mc n a serial).0 ≡ true
  unfolding queue_mpris_method
  queue-allowed linked audio mc n a serial h =
      elim (Bool-cases (mc.disposed || not (is_nonempty (some n)))) [
        | inl e ↦ rw e refl
        | inr e ↦ rw e (rw h refl)
      ]

  pub play-allowed :
      (linked audio : Bool) (mc : MediaControl G P) (n : Bytes)
      → all_allowed linked audio (player_play_async G P mc n) ≡ true
  unfolding player_play_async
  play-allowed linked audio mc n = queue-allowed linked audio mc n play 0 refl

  if_sent-Keeps :
      (mc : MediaControl G P) (b : Bool) (s t : Step G P × Bool)
      → Keeps G P mc s.0
      → Keeps G P mc t.0
      → Keeps G P mc (if b then s else t).0
  if_sent-Keeps mc true s t v w = v
  if_sent-Keeps mc false s t v w = w

  module _ (mc : MediaControl G P) (n : Bytes) (a : MprisAction)
      (h : action_allowed mc.airpods_link_active mc.airpods_audio_active a ≡ true) where
    pause_new-Keeps : (p : Pauses G P) → Keeps G P mc (pause_new G P mc n a p).0
    unfolding pause_new
    pause_new-Keeps p =
        let serial = next_serial mc.next_operation_serial in
        let counted : MediaControl G P = record mc { next_operation_serial = serial } in
        let writes : (p : Pauses G P)
            → Keeps G P mc
                (set_pauses G P counted a p, (queue_mpris_method G P counted n a serial).0) =
          λ p.
            asks-Keeps G P mc _ _
              (after-Keeps G P mc counted _ (same-Keeps G P mc counted refl refl refl)
                (set_pauses-Keeps counted a p))
              (queue-allowed mc.airpods_link_active mc.airpods_audio_active counted n a serial h) in
        if_sent-Keeps mc (queue_mpris_method G P counted n a serial).1 _ _ (writes _) (writes _)

    pause_for-Keeps : (p : Pauses G P) → Keeps G P mc (pause_for G P mc n a p).0
    unfolding pause_for
    pause_for-Keeps p =
        if_sent-Keeps mc (player_list_contains p.paused_players n) _ _
          (asks-Keeps G P mc mc _ (done-Keeps G P mc)
            (queue-allowed mc.airpods_link_active mc.airpods_audio_active mc n a 0 h))
          (if_sent-Keeps mc (is_some (P.lookup p.pending_pauses n)) _ _ (done-Keeps G P mc)
            (pause_new-Keeps p))

    pause_if-Keeps : (p : Option (Pauses G P)) → Keeps G P mc (pause_if G P mc n a p).0
    pause_if-Keeps none = done-Keeps G P mc
    pause_if-Keeps (some p) = pause_for-Keeps p

    pause-Keeps : Keeps G P mc (player_pause_async G P mc n a).0
    unfolding player_pause_async
    pause-Keeps = pause_if-Keeps (pauses_for_action G P mc a)

  pause_players-Keeps :
      (players : List Bytes) (mc : MediaControl G P) (a : MprisAction)
      → action_allowed mc.airpods_link_active mc.airpods_audio_active a ≡ true
      → Keeps G P mc (pause_players G P mc a players)
  unfolding pause_players
  pause_players-Keeps [] mc a h = done-Keeps G P mc
  pause_players-Keeps (n ∷ players) mc a h =
      let v = pause-Keeps mc n a h in
      both-Keeps G P mc (player_pause_async G P mc n a).0 (λ mc. pause_players G P mc a players) v
        (pause_players-Keeps players _ a (rw (v.same_link, v.same_audio) h))

  pub pause_all-Keeps : (mc : MediaControl G P) → Keeps G P mc (media_control_pause_all G P mc)
  unfolding media_control_pause_all pause_all_into
  pause_all-Keeps mc =
      if-Keeps G P mc (mc.airpods_link_active && mc.airpods_audio_active) _ _
        (λ h.
          pause_players-Keeps (media_playback_tracker_dup_playing_ids G mc.playback_tracker) mc
            pause_for_ear h)
        (λ h. done-Keeps G P mc)

  pub pause_all_for_handoff-Keeps :
      (mc : MediaControl G P) → Keeps G P mc (media_control_pause_all_for_handoff G P mc)
  unfolding media_control_pause_all_for_handoff pause_all_into
  pause_all_for_handoff-Keeps mc =
      if-Keeps G P mc mc.airpods_link_active _ _
        (λ h.
          pause_players-Keeps (media_playback_tracker_dup_playing_ids G mc.playback_tracker) mc
            pause_for_handoff h)
        (λ h. done-Keeps G P mc)

  play_targets-allowed :
      (linked audio : Bool) (mc : MediaControl G P) (targets : List Bytes)
      → all_allowed linked audio (play_targets G P mc targets) ≡ true
  unfolding play_targets
  play_targets-allowed linked audio mc [] = refl
  play_targets-allowed linked audio mc (n ∷ targets) =
      elim (Bool-cases (not (pause_reason_contains G P mc.handoff n))) [
        | inl e ↦
            rw
              (
                e,
                all_allowed-append linked audio (player_play_async G P mc n)
                    (play_targets G P mc targets),
                play-allowed linked audio mc n,
              )
              (play_targets-allowed linked audio mc targets)
        | inr e ↦ rw e (play_targets-allowed linked audio mc targets)
      ]

  pub resume-Keeps : (mc : MediaControl G P) → Keeps G P mc (media_control_resume G P mc)
  unfolding media_control_resume
  resume-Keeps mc = asks-Keeps G P mc _ _ (set_pauses-Keeps mc pause_for_ear (no_pauses G P)) (
      play_targets-allowed mc.airpods_link_active mc.airpods_audio_active mc
        (dup_pause_targets G P mc.ear))

  acknowledge_if-Keeps :
      (mc : MediaControl G P) (op : MprisOperation) (successful : Bool) (p : Option (Pauses G P))
      → Keeps G P mc (acknowledge_if G P mc op successful p, [])
  acknowledge_if-Keeps mc op successful none = done-Keeps G P mc
  acknowledge_if-Keeps mc op successful (some p) =
      set_pauses-Keeps mc op.action (acknowledge G P p op successful)

  pub finished-Keeps :
      (mc : MediaControl G P) (op : MprisOperation) (successful : Bool)
      → Keeps G P mc (on_mpris_method_finished G P mc op successful, [])
  unfolding on_mpris_method_finished
  finished-Keeps mc op successful =
      elim (Bool-cases (
        (not mc.disposed && (op.generation == mc.mpris_generation))
        && is_pause op.action
        && not (op.pending_serial == 0))) [
          | inl h ↦
              simp h (acknowledge_if-Keeps mc op successful (pauses_for_action G P mc op.action))
          | inr h ↦ simp h (done-Keeps G P mc)
        ]
