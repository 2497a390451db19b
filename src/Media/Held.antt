-- ===== src/Media/Held.antt =====
-- Which players are held: each once, either owned or pending. What a change of one player keeps.
use earport_handoff.Base.{
  ℕ, ◌+◌, ◌≤◌, ◌<◌, ◌≡◌, refl, sym, ap, ◌∙◌, inl, inr, Bool, true, false, not, ◌&&◌, ◌||◌, Option,
  none, some, subst, List, [], ◌∷◌, ◌++◌, arith, count, bytes_equal, if◌then◌else◌, Bool-cases,
  Option-cases, ltb, ◌==◌, has_prefix,
}
pub mod Calls
pub mod Handlers
use earport_handoff.Base.Text.{Bytes, CString, is_nonempty}
use earport_handoff.Base.Trace.{run}
use earport_handoff.HashTable.{StringTable, StringTableLaws, find}
use earport_handoff.Tracker.{
  Player, MediaPlaybackTransition, media_playback_tracker_dup_playing_ids,
}
use earport_handoff.Wear.{WearPolicyAction, none as no_action, pause, resume as resume_action}
use earport_handoff.Media.{
  Step, MprisAction, pause_for_ear, pause_for_handoff, play, MprisOperation, Pauses, MediaControl,
  player_list_contains, is_some, serial_of, no_pauses, forget, next_serial, queue_mpris_method,
  pause_new, pause_for, player_pause_async, pause_players, pause_all_into, media_control_pause_all,
  media_control_pause_all_for_handoff, acknowledge, on_mpris_method_finished, media_control_resume,
  reconcile_explicit_player_start, handle_playback_update, on_mpris_properties_changed,
  on_player_status_finished, query_player_playback_status_async, on_name_owner_changed,
  release_owner, adopt_owner, apply_status, drop_status, apply_answer, perform_action,
  media_control_set_ear_pause_mode, media_control_on_ear_detection_changed,
  media_control_set_airpods_link_active, media_control_set_airpods_audio_active,
  media_control_reset_device_state, media_control_clear_handoff_pause, media_control_free,
  media_control_init, set_pauses, player_list_remove, player_list_add_unique,
}
use earport_handoff.Media.Events.{
  MediaEvent, method_finished, properties_changed, status_finished, name_owner_changed,
  query_status, pause_all, pause_all_for_handoff, resume, set_ear_pause_mode, ear_detection_changed,
  set_link_active, set_audio_active, reset_device_state, clear_handoff_pause, free, reclaim_audio,
  media_step, after_event,
}
use earport_handoff.Media.Lists.{
  occurrences, occurrences-remove, add_unique-le, contains-remove, contains-add_unique,
  next_serial-ne_zero, contains-key,
}

module _ (G : StringTable Player) (P : StringTable ℕ) where
  -- No player is owned twice, none is both owned and pending, and no pending serial is 0, the value
  -- of a missing key.
  pub record AreConsistent (p : Pauses G P) : Type 0 where
    pub owned_once : (k : Bytes) → occurrences k p.paused_players ≤ 1
    pub not_both :
        (k : Bytes)
        → player_list_contains p.paused_players k ≡ true
        → P.lookup p.pending_pauses k ≡ none
    pub serial_ne_zero : (k : Bytes) (n : ℕ) → P.lookup p.pending_pauses k ≡ some n → 0 < n

  pub record IsConsistent (mc : MediaControl G P) : Type 0 where
    pub ear_consistent : AreConsistent mc.ear
    pub handoff_consistent : AreConsistent mc.handoff

  module _ (laws : StringTableLaws P) where
    lookup-new : (k : Bytes) → P.lookup P.new k ≡ none
    lookup-new k = laws.lookup-find P.new k ∙ ap (find k) laws.entries-new

    pub no_pauses-AreConsistent : AreConsistent (no_pauses G P)
    no_pauses-AreConsistent = record {
      owned_once = λ k. omega arith;
      not_both = λ k h. cc;
      serial_ne_zero = λ k n h. cc (sym (lookup-new k) ∙ h);
    }

    pub forget-AreConsistent :
        (p : Pauses G P) (n : Bytes) → AreConsistent p → AreConsistent (forget G P p n)
    forget-AreConsistent p n v = record {
      owned_once = λ k. omega (arith, occurrences-remove p.paused_players n k, v.owned_once k);
      not_both = λ k h. ground (
        arith,
        laws.lookup-remove p.pending_pauses n k,
        v.not_both k,
        contains-remove p.paused_players n k (v.owned_once k),
      );
      serial_ne_zero =
          λ k m h. ground (arith, laws.lookup-remove p.pending_pauses n k, v.serial_ne_zero k m);
    }

    pub add_pending-AreConsistent :
        (p : Pauses G P) (n : Bytes) (s : ℕ)
        → AreConsistent p
        → player_list_contains p.paused_players n ≡ false
        → 0 < s
        → AreConsistent (record p { pending_pauses = P.replace p.pending_pauses n s })
    add_pending-AreConsistent p n s v absent positive = record {
      owned_once = v.owned_once;
      not_both = λ k h. ground (
        arith,
        laws.lookup-replace p.pending_pauses n s k,
        v.not_both k,
        contains-key p.paused_players n k,
      );
      serial_ne_zero =
          λ k m h. ground (arith, laws.lookup-replace p.pending_pauses n s k, v.serial_ne_zero k m);
    }

    pub remove_pending-AreConsistent :
        (p : Pauses G P) (n : Bytes) (s : ℕ)
        → AreConsistent p
        → AreConsistent (record p { pending_pauses = P.remove (P.replace p.pending_pauses n s) n })
    remove_pending-AreConsistent p n s v = record {
      owned_once = v.owned_once;
      not_both = λ k h. ground (
        arith,
        laws.lookup-remove (P.replace p.pending_pauses n s) n k,
        laws.lookup-replace p.pending_pauses n s k,
        v.not_both k,
      );
      serial_ne_zero = λ k m h. ground (
        arith,
        laws.lookup-remove (P.replace p.pending_pauses n s) n k,
        laws.lookup-replace p.pending_pauses n s k,
        v.serial_ne_zero k m,
      );
    }

    pub acknowledge-AreConsistent :
        (p : Pauses G P) (op : MprisOperation) (successful : Bool)
        → AreConsistent p
        → AreConsistent (acknowledge G P p op successful)
    unfolding acknowledge
    acknowledge-AreConsistent p op successful v = record {
      owned_once =
          λ k. ground (arith, v.owned_once k, add_unique-le p.paused_players op.player_name k);
      not_both = λ k h. ground (
        arith,
        laws.lookup-remove p.pending_pauses op.player_name k,
        v.not_both k,
        contains-add_unique p.paused_players op.player_name k,
      );
      serial_ne_zero = λ k m h.
          ground
            (arith, laws.lookup-remove p.pending_pauses op.player_name k, v.serial_ne_zero k m);
    }

    pub set_pauses-IsConsistent :
        (mc : MediaControl G P) (a : MprisAction) (p : Pauses G P)
        → IsConsistent mc
        → AreConsistent p
        → IsConsistent (set_pauses G P mc a p)
    set_pauses-IsConsistent mc pause_for_ear p v w = record {
      ear_consistent = w;
      handoff_consistent = v.handoff_consistent;
    }
    set_pauses-IsConsistent mc pause_for_handoff p v w = record {
      ear_consistent = v.ear_consistent;
      handoff_consistent = w;
    }
    set_pauses-IsConsistent mc play p v w = v

    -- a state with the same pauses
    pub same-IsConsistent :
        (mc mc' : MediaControl G P)
        → mc'.ear ≡ mc.ear
        → mc'.handoff ≡ mc.handoff
        → IsConsistent mc
        → IsConsistent mc'
    same-IsConsistent mc mc' e f v = record {
      ear_consistent = subst AreConsistent (sym e) v.ear_consistent;
      handoff_consistent = subst AreConsistent (sym f) v.handoff_consistent;
    }

    -- a branch of a handler
    pub if-IsConsistent :
        (b : Bool) (s t : Step G P)
        → IsConsistent s.0
        → IsConsistent t.0
        → IsConsistent (if b then s else t).0
    if-IsConsistent true s t v w = v
    if-IsConsistent false s t v w = w
