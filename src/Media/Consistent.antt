-- ===== src/Media/Consistent.antt =====
-- The pauses of media_control.c over every sequence of events.
use earport_handoff.Base.{ℕ, refl, List, [], ◌∷◌}
use earport_handoff.Base.Trace.{run}
use earport_handoff.HashTable.{StringTable, StringTableLaws}
use earport_handoff.Tracker.{Player}
use earport_handoff.Media.{
  MediaControl, media_control_set_airpods_audio_active, media_control_clear_handoff_pause,
  media_control_init,
}
use earport_handoff.Media.Events.{
  MediaEvent, method_finished, properties_changed, status_finished, name_owner_changed,
  query_status, pause_all, pause_all_for_handoff, resume, set_ear_pause_mode, ear_detection_changed,
  set_link_active, set_audio_active, reset_device_state, clear_handoff_pause, free, reclaim_audio,
  media_step, after_event,
}
use earport_handoff.Media.Held.{IsConsistent, same-IsConsistent, no_pauses-AreConsistent}
use earport_handoff.Media.Held.Calls.{
  pause_all-IsConsistent, resume-IsConsistent, finished-IsConsistent,
}
use earport_handoff.Media.Held.Handlers.{
  properties_changed-IsConsistent, status_finished-IsConsistent, query-IsConsistent,
  owner-IsConsistent, mode-IsConsistent, ear-IsConsistent, link-IsConsistent, reset-IsConsistent,
  free-IsConsistent,
}

module _ (G : StringTable Player) (P : StringTable ℕ) (laws : StringTableLaws P) where
  init-IsConsistent : IsConsistent G P (media_control_init G P)
  unfolding media_control_init
  init-IsConsistent = record {
    ear_consistent = no_pauses-AreConsistent G P laws;
    handoff_consistent = no_pauses-AreConsistent G P laws;
  }

  step-IsConsistent :
      (mc : MediaControl G P) (e : MediaEvent)
      → IsConsistent G P mc
      → IsConsistent G P (after_event G P mc e)
  unfolding media_step media_control_set_airpods_audio_active media_control_clear_handoff_pause
  step-IsConsistent mc (method_finished op successful) v =
      finished-IsConsistent G P laws mc op successful v
  step-IsConsistent mc (properties_changed n status) v =
      properties_changed-IsConsistent G P laws mc n status v
  step-IsConsistent mc (status_finished op answer) v =
      status_finished-IsConsistent G P laws mc op answer v
  step-IsConsistent mc (name_owner_changed name old_owner new_owner) v =
      owner-IsConsistent G P laws mc name old_owner new_owner v
  step-IsConsistent mc (query_status n suppress) v = query-IsConsistent G P laws mc n suppress v
  step-IsConsistent mc pause_all v = (pause_all-IsConsistent G P laws mc v).0
  step-IsConsistent mc pause_all_for_handoff v = (pause_all-IsConsistent G P laws mc v).1
  step-IsConsistent mc resume v = resume-IsConsistent G P laws mc v
  step-IsConsistent mc (set_ear_pause_mode mode) v = mode-IsConsistent G P laws mc mode v
  step-IsConsistent mc (ear_detection_changed left right) v =
      ear-IsConsistent G P laws mc left right v
  step-IsConsistent mc (set_link_active active) v = link-IsConsistent G P laws mc active v
  step-IsConsistent mc (set_audio_active active) v = same-IsConsistent G P laws mc _ refl refl v
  step-IsConsistent mc reset_device_state v = reset-IsConsistent G P laws mc
  step-IsConsistent mc clear_handoff_pause v = record {
    ear_consistent = v.ear_consistent;
    handoff_consistent = no_pauses-AreConsistent G P laws;
  }
  step-IsConsistent mc free v = free-IsConsistent G P laws mc v
  step-IsConsistent mc (reclaim_audio address) v = v

  from-IsConsistent :
      (es : List MediaEvent) (mc : MediaControl G P)
      → IsConsistent G P mc
      → IsConsistent G P (run (after_event G P) mc es)
  from-IsConsistent [] mc v = v
  from-IsConsistent (e ∷ es) mc v =
      from-IsConsistent es (after_event G P mc e) (step-IsConsistent mc e v)

  -- Whatever signals, answers and calls come, in any order, since the start: for a removal and for a
  -- handoff alike, no player is held twice as paused, none is both held as paused and awaiting the
  -- answer to its Pause, and no awaited serial is 0, which a missing entry stands for.
  pub run-IsConsistent :
      (es : List MediaEvent) → IsConsistent G P (run (after_event G P) (media_control_init G P) es)
  run-IsConsistent es = from-IsConsistent es (media_control_init G P) init-IsConsistent
