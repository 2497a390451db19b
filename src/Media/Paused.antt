-- ===== src/Media/Paused.antt =====
-- What a pause holds for a later resume.
use earport_handoff.Base.{
  ℕ, ◌≡◌, refl, ap, ◌∙◌, inl, inr, Bool, true, false, not, ◌&&◌, ◌||◌, some, List, [], ◌∷◌, arith,
  count, bytes_equal, Bool-cases,
}
use earport_handoff.Base.Text.{Bytes, is_nonempty}
use earport_handoff.HashTable.{StringTable, StringTableLaws}
use earport_handoff.Tracker.{Player, media_playback_tracker_dup_playing_ids}
use earport_handoff.Media.{
  pause_for_ear, MediaControl, player_list_contains, is_some, pause_reason_contains, next_serial,
  queue_mpris_method, pause_new, pause_for, player_pause_async, pause_players, pause_all_into,
  media_control_pause_all, media_control_resume,
}
use earport_handoff.Media.Lists.{one_if}
use earport_handoff.Media.Resume.{plays, reaches, same_key, resume_plays}

module _ (G : StringTable Player) (P : StringTable ℕ) (laws : StringTableLaws P) where
  -- What a pause for a removal changes, as far as a later resume sees it: it holds more players, those
  -- of `test` that a call reaches.
  record Holds (mc mc' : MediaControl G P) (test : Bytes → Bool) : Type 0 where
    same_disposed : mc'.disposed ≡ mc.disposed
    same_handoff :
        (k : Bytes)
        → pause_reason_contains G P mc'.handoff k ≡ pause_reason_contains G P mc.handoff k
    held :
        (k : Bytes)
        → pause_reason_contains G P mc'.ear k
          ≡ (pause_reason_contains G P mc.ear k || (reaches mc.disposed k && test k))

  pause_new-Holds :
      (mc : MediaControl G P) (n : Bytes)
      → is_some (P.lookup mc.ear.pending_pauses n) ≡ false
      → Holds mc (pause_new G P mc n pause_for_ear mc.ear).0.0 (bytes_equal n)
  unfolding pause_new queue_mpris_method
  pause_new-Holds mc n fresh =
      let serial = next_serial mc.next_operation_serial in
      let pending = P.replace mc.ear.pending_pauses n serial in
      elim (Bool-cases (mc.disposed || not (is_nonempty (some n)))) [
        | inl failed ↦ simp failed (record {
          same_disposed = refl;
          same_handoff = λ k. refl;
          held = λ k. ground (
            arith,
            laws.lookup-remove pending n k,
            laws.lookup-replace mc.ear.pending_pauses n serial k,
            same_key (λ x. is_nonempty (some x)) n k,
            same_key (λ x. is_some (P.lookup mc.ear.pending_pauses x)) n k,
          );
        })
        | inr sent ↦ simp sent (record {
          same_disposed = refl;
          same_handoff = λ k. refl;
          held = λ k. ground (
            arith,
            laws.lookup-replace mc.ear.pending_pauses n serial k,
            same_key (λ x. is_nonempty (some x)) n k,
          );
        })
      ]

  -- a player that is held already
  already-Holds :
      (mc : MediaControl G P) (n : Bytes)
      → pause_reason_contains G P mc.ear n ≡ true
      → Holds mc mc (bytes_equal n)
  already-Holds mc n h = record {
    same_disposed = refl;
    same_handoff = λ k. refl;
    held = λ k. ground (arith, same_key (pause_reason_contains G P mc.ear) n k);
  }

  pause-Holds :
      (mc : MediaControl G P) (n : Bytes)
      → Holds mc (player_pause_async G P mc n pause_for_ear).0.0 (bytes_equal n)
  unfolding player_pause_async pause_for
  pause-Holds mc n = elim (Bool-cases (player_list_contains mc.ear.paused_players n)) [
    | inl owned ↦ simp owned (already-Holds mc n (ground arith))
    | inr absent ↦ elim (Bool-cases (is_some (P.lookup mc.ear.pending_pauses n))) [
      | inl pending ↦ simp (absent, pending) (already-Holds mc n (ground arith))
      | inr fresh ↦ simp (absent, fresh) (pause_new-Holds mc n fresh)
    ]
  ]

  pause_players-Holds :
      (players : List Bytes) (mc : MediaControl G P)
      → Holds mc (pause_players G P mc pause_for_ear players).0 (player_list_contains players)
  unfolding pause_players
  pause_players-Holds [] mc = record {
    same_disposed = refl;
    same_handoff = λ k. refl;
    held = λ k. ground arith;
  }
  pause_players-Holds (n ∷ players) mc =
      let first = pause-Holds mc n in
      let rest = pause_players-Holds players (player_pause_async G P mc n pause_for_ear).0.0 in
      record {
        same_disposed = rest.same_disposed ∙ first.same_disposed;
        same_handoff = λ k. rest.same_handoff k ∙ first.same_handoff k;
        held =
            λ k. ground (arith, rest.held k, first.held k, rest.same_disposed, first.same_disposed);
      }

  -- A removal from the ears that ends, while nothing else happens: where the AirPods are linked and
  -- carry the audio, a pause of all followed by a resume sends one Play to each player that plays or
  -- was held for the removal before, and that no handoff holds, and none to any other.
  pub pause_all-resume :
      (mc : MediaControl G P) (k : Bytes)
      → mc.airpods_link_active ≡ true
      → mc.airpods_audio_active ≡ true
      → let playing = media_playback_tracker_dup_playing_ids G mc.playback_tracker in
        count (plays k) (media_control_resume G P (media_control_pause_all G P mc).0).1
        ≡ one_if (
            reaches mc.disposed k
            && (pause_reason_contains G P mc.ear k || player_list_contains playing k)
            && not (pause_reason_contains G P mc.handoff k))
  unfolding media_control_pause_all pause_all_into
  pause_all-resume mc k linked audio =
      let playing = media_playback_tracker_dup_playing_ids G mc.playback_tracker in
      let paused = (pause_players G P mc pause_for_ear playing).0 in
      let v = pause_players-Holds playing mc in
      let e : (media_control_pause_all G P mc).0 ≡ paused = ground arith in
      ap (λ mc. count (plays k) (media_control_resume G P mc).1) e
      ∙ resume_plays G P laws paused k
      ∙ ground (arith, v.held k, v.same_handoff k, v.same_disposed)
