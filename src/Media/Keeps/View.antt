-- ===== src/Media/Keeps/View.antt =====
-- The events that keep the generation and the link, and those that set them.
use earport_handoff.Base.{ℕ, ◌≡◌, refl, Bool, true, false}
use earport_handoff.HashTable.{StringTable}
use earport_handoff.Tracker.{Player}
use earport_handoff.Media.{MediaControl, media_control_clear_handoff_pause}
use earport_handoff.Media.Events.{
  MediaEvent, method_finished, properties_changed, status_finished, name_owner_changed,
  query_status, pause_all, pause_all_for_handoff, resume, set_ear_pause_mode, ear_detection_changed,
  set_link_active, set_audio_active, reset_device_state, clear_handoff_pause, free, reclaim_audio,
  media_step,
}
use earport_handoff.Media.Keeps.{Keeps, same-Keeps}
use earport_handoff.Media.Keeps.Calls.{
  pause_all-Keeps, pause_all_for_handoff-Keeps, resume-Keeps, finished-Keeps,
}
use earport_handoff.Media.Keeps.Handlers.{
  properties_changed-Keeps, status_finished-Keeps, query-Keeps, owner-Keeps, mode-Keeps, ear-Keeps,
  reclaim-Keeps,
}

-- whether an event tells that the AirPods are linked, and whether it leaves a link as it is
abbrev pub links : MediaEvent → Bool
links (set_link_active active) = active
links _ = false

abbrev pub keeps_link : MediaEvent → Bool
keeps_link (set_link_active active) = active
keeps_link reset_device_state = false
keeps_link _ = true

-- the events that can start a generation
abbrev pub is_reset : MediaEvent → Bool
is_reset reset_device_state = true
is_reset free = true
is_reset _ = false

module _ (G : StringTable Player) (P : StringTable ℕ) where
  -- an event that keeps the generation and the link, or one of those that set them
  pub data StepView (mc : MediaControl G P) : MediaEvent → Type 0 where
    keeps :
        (e : MediaEvent)
        → links e ≡ false
        → keeps_link e ≡ true
        → is_reset e ≡ false
        → Keeps G P mc (media_step G P mc e)
        → StepView mc e
    sets_link : (active : Bool) → StepView mc (set_link_active active)
    sets_audio : (active : Bool) → StepView mc (set_audio_active active)
    resets : StepView mc reset_device_state
    frees : StepView mc free

  pub step_view : (mc : MediaControl G P) (e : MediaEvent) → StepView mc e
  unfolding media_step media_control_clear_handoff_pause
  step_view mc (method_finished op successful) =
      keeps _ refl refl refl (finished-Keeps G P mc op successful)
  step_view mc (properties_changed n status) =
      keeps _ refl refl refl (properties_changed-Keeps G P mc n status)
  step_view mc (status_finished op answer) =
      keeps _ refl refl refl (status_finished-Keeps G P mc op answer)
  step_view mc (name_owner_changed name old_owner new_owner) =
      keeps _ refl refl refl (owner-Keeps G P mc name old_owner new_owner)
  step_view mc (query_status n suppress) = keeps _ refl refl refl (query-Keeps G P mc n suppress)
  step_view mc pause_all = keeps _ refl refl refl (pause_all-Keeps G P mc)
  step_view mc pause_all_for_handoff = keeps _ refl refl refl (pause_all_for_handoff-Keeps G P mc)
  step_view mc resume = keeps _ refl refl refl (resume-Keeps G P mc)
  step_view mc (set_ear_pause_mode mode) = keeps _ refl refl refl (mode-Keeps G P mc mode)
  step_view mc (ear_detection_changed left right) =
      keeps _ refl refl refl (ear-Keeps G P mc left right)
  step_view mc (set_link_active active) = sets_link active
  step_view mc (set_audio_active active) = sets_audio active
  step_view mc reset_device_state = resets
  step_view mc clear_handoff_pause = keeps _ refl refl refl (same-Keeps G P mc _ refl refl refl)
  step_view mc free = frees
  step_view mc (reclaim_audio address) = keeps _ refl refl refl (reclaim-Keeps G P mc address)
