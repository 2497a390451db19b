-- ===== src/Media/Held/Calls.antt =====
-- The pauses that are held are consistent after a Pause call, its answer, and a resume.
use earport_handoff.Base.{
  ℕ, ◌≡◌, refl, inl, inr, Bool, false, not, ◌&&◌, ◌||◌, none, some, List, [], ◌∷◌, Bool-cases, ◌==◌,
}
use earport_handoff.Base.Text.{Bytes, is_nonempty}
use earport_handoff.HashTable.{StringTable, StringTableLaws}
use earport_handoff.Tracker.{Player, media_playback_tracker_dup_playing_ids}
use earport_handoff.Media.{
  is_pause, pauses_for_action, MprisAction, pause_for_ear, pause_for_handoff, play, MprisOperation,
  Pauses, MediaControl, player_list_contains, is_some, no_pauses, next_serial, queue_mpris_method,
  pause_new, pause_for, player_pause_async, pause_players, pause_all_into, media_control_pause_all,
  media_control_pause_all_for_handoff, acknowledge, on_mpris_method_finished, media_control_resume,
  set_pauses,
}
use earport_handoff.Media.Lists.{next_serial-ne_zero}
use earport_handoff.Media.Held.{
  AreConsistent, IsConsistent, no_pauses-AreConsistent, add_pending-AreConsistent,
  remove_pending-AreConsistent, acknowledge-AreConsistent, set_pauses-IsConsistent,
  same-IsConsistent,
}

module _ (G : StringTable Player) (P : StringTable ℕ) (laws : StringTableLaws P) where
  pub pause_new-IsConsistent :
      (mc : MediaControl G P) (n : Bytes) (a : MprisAction) (p : Pauses G P)
      → IsConsistent G P mc
      → AreConsistent G P p
      → player_list_contains p.paused_players n ≡ false
      → IsConsistent G P (pause_new G P mc n a p).0.0
  unfolding pause_new queue_mpris_method
  pause_new-IsConsistent mc n a p v w absent =
      let serial = next_serial mc.next_operation_serial in
      let counted : MediaControl G P = record mc { next_operation_serial = serial } in
      let v' = same-IsConsistent G P laws mc counted refl refl v in
      elim (Bool-cases (mc.disposed || not (is_nonempty (some n)))) [
        | inl failed ↦ rw failed (
            set_pauses-IsConsistent G P laws counted a _ v'
              (remove_pending-AreConsistent G P laws p n serial w))
        | inr sent ↦ rw sent (
            set_pauses-IsConsistent G P laws counted a _ v' (
              add_pending-AreConsistent G P laws p n serial w absent
                (next_serial-ne_zero mc.next_operation_serial)))
      ]

  pub pause_for-IsConsistent :
      (mc : MediaControl G P) (n : Bytes) (a : MprisAction) (p : Pauses G P)
      → IsConsistent G P mc
      → AreConsistent G P p
      → IsConsistent G P (pause_for G P mc n a p).0.0
  unfolding pause_for queue_mpris_method
  pause_for-IsConsistent mc n a p v w =
      elim (Bool-cases (player_list_contains p.paused_players n)) [
        | inl owned ↦ rw owned v
        | inr absent ↦ elim (Bool-cases (is_some (P.lookup p.pending_pauses n))) [
          | inl pending ↦ rw (absent, pending) v
          | inr fresh ↦ rw (absent, fresh) (pause_new-IsConsistent mc n a p v w absent)
        ]
      ]

  pub player_pause-IsConsistent :
      (mc : MediaControl G P) (n : Bytes) (a : MprisAction)
      → IsConsistent G P mc
      → IsConsistent G P (player_pause_async G P mc n a).0.0
  unfolding player_pause_async
  player_pause-IsConsistent mc n pause_for_ear v =
      pause_for-IsConsistent mc n pause_for_ear mc.ear v v.ear_consistent
  player_pause-IsConsistent mc n pause_for_handoff v =
      pause_for-IsConsistent mc n pause_for_handoff mc.handoff v v.handoff_consistent
  player_pause-IsConsistent mc n play v = v

  pub pause_players-IsConsistent :
      (players : List Bytes) (mc : MediaControl G P) (a : MprisAction)
      → IsConsistent G P mc
      → IsConsistent G P (pause_players G P mc a players).0
  unfolding pause_players
  pause_players-IsConsistent [] mc a v = v
  pause_players-IsConsistent (n ∷ players) mc a v =
      pause_players-IsConsistent players (player_pause_async G P mc n a).0.0 a
        (player_pause-IsConsistent mc n a v)

  pub pause_all-IsConsistent :
      (mc : MediaControl G P)
      → IsConsistent G P mc
      → IsConsistent G P (media_control_pause_all G P mc).0
        × IsConsistent G P (media_control_pause_all_for_handoff G P mc).0
  unfolding media_control_pause_all media_control_pause_all_for_handoff pause_all_into
  pause_all-IsConsistent mc v =
      let players = media_playback_tracker_dup_playing_ids G mc.playback_tracker in
      (
        elim (Bool-cases (mc.airpods_link_active && mc.airpods_audio_active)) [
          | inl h ↦ rw h (pause_players-IsConsistent players mc pause_for_ear v)
          | inr h ↦ rw h v
        ],
        elim (Bool-cases mc.airpods_link_active) [
          | inl h ↦ simp h (pause_players-IsConsistent players mc pause_for_handoff v)
          | inr h ↦ simp h v
        ],
      )

  pub resume-IsConsistent :
      (mc : MediaControl G P)
      → IsConsistent G P mc
      → IsConsistent G P (media_control_resume G P mc).0
  unfolding media_control_resume
  resume-IsConsistent mc v =
      set_pauses-IsConsistent G P laws mc pause_for_ear (no_pauses G P) v
        (no_pauses-AreConsistent G P laws)

  acknowledge_if-IsConsistent :
      (mc : MediaControl G P) (op : MprisOperation) (successful : Bool) (a : MprisAction)
      → IsConsistent G P mc
      → IsConsistent G P (elim (pauses_for_action G P mc a) [
        | none ↦ mc
        | some p ↦ set_pauses G P mc a (acknowledge G P p op successful)
      ])
  acknowledge_if-IsConsistent mc op successful pause_for_ear v =
      set_pauses-IsConsistent G P laws mc pause_for_ear _ v
        (acknowledge-AreConsistent G P laws mc.ear op successful v.ear_consistent)
  acknowledge_if-IsConsistent mc op successful pause_for_handoff v =
      set_pauses-IsConsistent G P laws mc pause_for_handoff _ v
        (acknowledge-AreConsistent G P laws mc.handoff op successful v.handoff_consistent)
  acknowledge_if-IsConsistent mc op successful play v = v

  -- the answer to an operation
  pub finished-IsConsistent :
      (mc : MediaControl G P) (op : MprisOperation) (successful : Bool)
      → IsConsistent G P mc
      → IsConsistent G P (on_mpris_method_finished G P mc op successful)
  unfolding on_mpris_method_finished
  finished-IsConsistent mc op successful v =
      let valid =
        (not mc.disposed && (op.generation == mc.mpris_generation))
        && is_pause op.action
        && not (op.pending_serial == 0) in
      elim (Bool-cases valid) [
        | inl h ↦ rw h (acknowledge_if-IsConsistent mc op successful op.action v)
        | inr h ↦ rw h v
      ]
