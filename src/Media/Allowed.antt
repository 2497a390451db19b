-- ===== src/Media/Allowed.antt =====
-- When media_control.c sends a Pause.
use earport_handoff.Base.{ℕ, ◌≡◌, refl, sym, ◌∙◌, true, false, ◌&&◌, ◌||◌, List, [], ◌∷◌, arith}
use earport_handoff.Base.Trace.{run, Since, Governs, Governs-Explains, flag-Since}
use earport_handoff.HashTable.{StringTable}
use earport_handoff.Tracker.{Player}
use earport_handoff.Media.{
  MediaControl, media_control_init, media_control_set_airpods_link_active,
  media_control_set_airpods_audio_active, media_control_reset_device_state, media_control_free,
}
use earport_handoff.Media.Events.{MediaEvent, media_step, after_event}
use earport_handoff.Media.Keeps.{all_allowed}
use earport_handoff.Media.Keeps.View.{
  links, keeps_link, StepView, keeps, sets_link, sets_audio, resets, frees, step_view,
}

module _ (G : StringTable Player) (P : StringTable ℕ) where
  view-allowed :
      (mc : MediaControl G P) (e : MediaEvent)
      → StepView G P mc e
      → all_allowed mc.airpods_link_active mc.airpods_audio_active (media_step G P mc e).1 ≡ true
  unfolding media_step media_control_set_airpods_link_active media_control_reset_device_state
      media_control_free
  view-allowed mc _ (keeps e l k r v) = v.allowed
  view-allowed mc _ (sets_link active) = ground arith
  view-allowed mc _ (sets_audio active) = refl
  view-allowed mc _ resets = refl
  view-allowed mc _ frees = ground arith

  -- In every state and at every event, each Pause that is sent for a removal from the ears is sent
  -- while the AirPods are linked and carry the audio, and each Pause for a handoff while they are
  -- linked.
  pub pause_allowed :
      (mc : MediaControl G P) (e : MediaEvent)
      → all_allowed mc.airpods_link_active mc.airpods_audio_active (media_step G P mc e).1 ≡ true
  pause_allowed mc e = view-allowed mc e (step_view G P mc e)

  view-audio_linked :
      (mc : MediaControl G P) (e : MediaEvent)
      → StepView G P mc e
      → (mc.airpods_audio_active ≡ true → mc.airpods_link_active ≡ true)
      → (after_event G P mc e).airpods_audio_active ≡ true
      → (after_event G P mc e).airpods_link_active ≡ true
  unfolding media_step media_control_set_airpods_link_active media_control_reset_device_state
      media_control_free media_control_set_airpods_audio_active
  view-audio_linked mc _ (keeps e l k r v) h a = v.same_link ∙ h (sym v.same_audio ∙ a)
  view-audio_linked mc _ (sets_link true) h a = ground arith
  view-audio_linked mc _ (sets_link false) h a = ground arith
  view-audio_linked mc _ (sets_audio active) h a = ground arith
  view-audio_linked mc _ resets h a = ground arith
  view-audio_linked mc _ frees h a = ground arith

  view-link :
      (mc : MediaControl G P) (e : MediaEvent)
      → StepView G P mc e
      → (after_event G P mc e).airpods_link_active
        ≡ (links e || (keeps_link e && mc.airpods_link_active))
  unfolding media_step media_control_set_airpods_link_active media_control_reset_device_state
      media_control_free media_control_set_airpods_audio_active
  view-link mc _ (keeps e l k r v) = rw (l, k) v.same_link
  view-link mc _ (sets_link true) = ground arith
  view-link mc _ (sets_link false) = ground arith
  view-link mc _ (sets_audio active) = refl
  view-link mc _ resets = refl
  view-link mc _ frees = ground arith

  link_governed : Governs (after_event G P) (λ mc. mc.airpods_link_active) links keeps_link
  link_governed mc e = view-link mc e (step_view G P mc e)

  audio_linked :
      (es : List MediaEvent) (mc : MediaControl G P)
      → (mc.airpods_audio_active ≡ true → mc.airpods_link_active ≡ true)
      → (run (after_event G P) mc es).airpods_audio_active ≡ true
      → (run (after_event G P) mc es).airpods_link_active ≡ true
  audio_linked [] mc h = h
  audio_linked (e ∷ es) mc h =
      audio_linked es (after_event G P mc e) (view-audio_linked mc e (step_view G P mc e) h)

  -- Over every sequence of events since the start, the AirPods count as carrying the audio only
  -- after the last event that set the link made it active: no later event reported the link lost or
  -- reset the device.
  pub audio-Since :
      (es : List MediaEvent)
      → (run (after_event G P) (media_control_init G P) es).airpods_audio_active ≡ true
      → Since links keeps_link es
  unfolding media_control_init
  audio-Since es h =
      flag-Since (after_event G P) (λ mc. mc.airpods_link_active) links keeps_link
        (Governs-Explains (after_event G P) (λ mc. mc.airpods_link_active) links keeps_link
          link_governed)
        (media_control_init G P) es refl
        (audio_linked es (media_control_init G P) (λ a. ground arith) h)
