-- ===== src/Media/Started.antt =====
-- A player that its user starts is held no more.
use earport_handoff.Base.{
  ℕ, ◌≡◌, ◌∙◌, inl, inr, Bool, true, false, not, ◌&&◌, ◌||◌, some, arith, count, bytes_equal,
  bytes_equal_refl, Bool-cases,
}
use earport_handoff.Base.Text.{Bytes, codes, is_nonempty}
use earport_handoff.HashTable.{StringTable, StringTableLaws}
use earport_handoff.Tracker.{
  MediaPlaybackTransition, media_playback_tracker_update, media_playback_tracker_player_is_playing,
  Player,
}
use earport_handoff.Media.{
  notify_playback, forget, reconcile_explicit_player_start, handle_playback_update,
  on_mpris_properties_changed, Pauses, MediaControl, player_list_contains, is_some,
  pause_reason_contains,
}
use earport_handoff.Media.Lists.{contains-remove, one_if}
use earport_handoff.Media.Resume.{play_async-count, count-append, plays, same_key}
use earport_handoff.Media.Held.{AreConsistent, IsConsistent}

notify-plays :
    (set : Bool) (t : MediaPlaybackTransition) (b : Bool) (k : Bytes)
    → count (plays k) (notify_playback set t b) ≡ 0
notify-plays set t b k = ground arith

module _ (G : StringTable Player) (P : StringTable ℕ) (laws : StringTableLaws P) where
  forget-contains :
      (p : Pauses G P) (n k : Bytes)
      → AreConsistent G P p
      → pause_reason_contains G P (forget G P p n) k
        ≡ (pause_reason_contains G P p k && not (bytes_equal n k))
  forget-contains p n k v = ground (
    arith,
    laws.lookup-remove p.pending_pauses n k,
    contains-remove p.paused_players n k (v.owned_once k),
  )

  reconcile-holds :
      (mc : MediaControl G P) (n k : Bytes)
      → IsConsistent G P mc
      → is_nonempty (some n) ≡ true
      → let mc' = (reconcile_explicit_player_start G P mc n).0 in
        (pause_reason_contains G P mc'.ear k
          ≡ (pause_reason_contains G P mc.ear k && not (bytes_equal n k)))
        × (pause_reason_contains G P mc'.handoff k
            ≡ (pause_reason_contains G P mc.handoff k && not (bytes_equal n k)))
  unfolding reconcile_explicit_player_start
  reconcile-holds mc n k v nonempty =
      let ear_same = same_key (pause_reason_contains G P mc.ear) n k in
      let handoff_same = same_key (pause_reason_contains G P mc.handoff) n k in
      elim (Bool-cases (
        not (is_some (P.lookup mc.ear.pending_pauses n))
        && not (player_list_contains mc.ear.paused_players n)
        && not (is_some (P.lookup mc.handoff.pending_pauses n))
        && not (player_list_contains mc.handoff.paused_players n))) [
          | inl none_held ↦ simp (nonempty, none_held) (ground arith, ground arith)
          | inr held ↦
              simp (nonempty, held)
                (
                  forget-contains mc.ear n k v.ear_consistent,
                  forget-contains mc.handoff n k v.handoff_consistent,
                )
        ]

  reconcile-plays :
      (mc : MediaControl G P) (n : Bytes)
      → is_nonempty (some n) ≡ true
      → count (plays n) (reconcile_explicit_player_start G P mc n).1
        ≡ one_if (
            not mc.disposed
            && (is_some (P.lookup mc.ear.pending_pauses n)
                || is_some (P.lookup mc.handoff.pending_pauses n)))
  unfolding reconcile_explicit_player_start
  reconcile-plays mc n nonempty = ground (arith, play_async-count G P mc n n, bytes_equal_refl n)

  -- When a player reports that it plays and was not known to, in a consistent state: it is held for
  -- no removal and no handoff any more, every other player is held as before, and exactly one Play
  -- follows it if a Pause to it was not answered yet, and none otherwise.
  pub explicit_start :
      (mc : MediaControl G P) (n k : Bytes)
      → IsConsistent G P mc
      → is_nonempty (some n) ≡ true
      → media_playback_tracker_player_is_playing G mc.playback_tracker (some n) ≡ false
      → let s = on_mpris_properties_changed G P mc n (some (codes "Playing")) in
        (pause_reason_contains G P s.0.ear k
          ≡ (pause_reason_contains G P mc.ear k && not (bytes_equal n k)))
        × (pause_reason_contains G P s.0.handoff k
            ≡ (pause_reason_contains G P mc.handoff k && not (bytes_equal n k)))
        × (count (plays n) s.1
            ≡ one_if (
                not mc.disposed
                && (is_some (P.lookup mc.ear.pending_pauses n)
                    || is_some (P.lookup mc.handoff.pending_pauses n))))
  unfolding on_mpris_properties_changed handle_playback_update
  explicit_start mc n k v nonempty silent =
      let updated = media_playback_tracker_update G mc.playback_tracker (some n) true in
      let tracked : MediaControl G P = record mc {
        playback_tracker = updated.0;
        pending_status_queries = P.remove mc.pending_status_queries n;
      } in
      let w : IsConsistent G P tracked = record {
        ear_consistent = v.ear_consistent;
        handoff_consistent = v.handoff_consistent;
      } in
      let reconciled = reconcile_explicit_player_start G P tracked n in
      let holds = reconcile-holds tracked n k w nonempty in
      simp silent (
        holds.0,
        holds.1,
        count-append (plays n) reconciled.1
              (notify_playback (not reconciled.0.disposed) updated.1 true)
            ∙ omega (
              arith,
              reconcile-plays tracked n nonempty,
              notify-plays (not reconciled.0.disposed) updated.1 true n,
            ),
      )
