-- ===== src/Media/Stale.antt =====
-- Answers to calls of an earlier generation.
use earport_handoff.Base.{
  ◌⊎◌, inl, inr, ℕ, suc, ◌+◌, ◌%◌, ◌^◌, ◌<◌, count, ◌≡◌, refl, ◌∙◌, Bool, true, false, List, [],
  ◌∷◌, arith, Bool-cases,
}
use earport_handoff.Base.Trace.{run}
use earport_handoff.HashTable.{StringTable}
use earport_handoff.Tracker.{Player}
use earport_handoff.Media.{
  MediaControl, MprisOperation, on_mpris_method_finished, media_control_set_airpods_link_active,
  media_control_set_airpods_audio_active, media_control_reset_device_state, media_control_free,
}
use earport_handoff.Media.Events.{
  MediaEvent, method_finished, reset_device_state, media_step, after_event,
}
use earport_handoff.Media.Keeps.View.{
  is_reset, StepView, keeps, sets_link, sets_audio, resets, frees, step_view,
}

module _ (G : StringTable Player) (P : StringTable ℕ) where
  generation-view :
      (mc : MediaControl G P) (e : MediaEvent) (g k : ℕ)
      → StepView G P mc e
      → mc.mpris_generation ≡ (g + k) % 2 ^ 32
      → ((after_event G P mc e).mpris_generation ≡ (g + k) % 2 ^ 32)
        ⊎ ((is_reset e ≡ true) × ((after_event G P mc e).mpris_generation ≡ (g + suc k) % 2 ^ 32))
  unfolding media_step media_control_set_airpods_link_active media_control_reset_device_state
      media_control_free media_control_set_airpods_audio_active
  generation-view mc _ g k (keeps e l k' r v) h = inl (v.same_generation ∙ h)
  generation-view mc _ g k (sets_link true) h = inl (ground arith)
  generation-view mc _ g k (sets_link false) h = inl (ground arith)
  generation-view mc _ g k (sets_audio active) h = inl h
  generation-view mc _ g k resets h = inr (refl, omega arith)
  generation-view mc _ g k frees h = elim (Bool-cases mc.disposed) [
    | inl d ↦ inl (ground arith)
    | inr d ↦ inr (refl, ground arith)
  ]

  ignored :
      (mc : MediaControl G P) (op : MprisOperation) (successful : Bool) (k : ℕ)
      → op.generation < 2 ^ 32
      → 0 < k
      → k < 2 ^ 32
      → mc.mpris_generation ≡ (op.generation + k) % 2 ^ 32
      → on_mpris_method_finished G P mc op successful ≡ mc
  unfolding on_mpris_method_finished
  ignored mc op successful k bound positive small h = ground arith

  stale_after :
      (es : List MediaEvent) (mc : MediaControl G P) (op : MprisOperation) (successful : Bool)
      (k : ℕ)
      → op.generation < 2 ^ 32
      → 0 < k
      → k + count is_reset es < 2 ^ 32
      → mc.mpris_generation ≡ (op.generation + k) % 2 ^ 32
      → on_mpris_method_finished G P (run (after_event G P) mc es) op successful
        ≡ run (after_event G P) mc es
  stale_after [] mc op successful k bound positive small h =
      ignored mc op successful k bound positive (omega arith) h
  stale_after (e ∷ es) mc op successful k bound positive small h =
      elim (generation-view mc e op.generation k (step_view G P mc e) h) [
        | inl same ↦
            stale_after es (after_event G P mc e) op successful k bound positive (ground arith) same
        | inr (is_one, next) ↦
            stale_after es (after_event G P mc e) op successful (suc k) bound (omega arith)
              (ground arith) next
      ]

  -- A call that was sent before the device's state was reset is answered to no effect, whatever it
  -- was and whatever happens between the reset and the answer, as long as that reset and the later
  -- resets and frees are fewer than 2^32: the counter of generations does not come round.
  pub stale_ignored :
      (mc : MediaControl G P) (op : MprisOperation) (es : List MediaEvent) (successful : Bool)
      → op.generation ≡ mc.mpris_generation
      → mc.mpris_generation < 2 ^ 32
      → count is_reset (reset_device_state ∷ es) < 2 ^ 32
      → let later = run (after_event G P) mc (reset_device_state ∷ es) in
        after_event G P later (method_finished op successful) ≡ later
  unfolding media_step media_control_reset_device_state
  stale_ignored mc op es successful sent bound few =
      stale_after es (after_event G P mc reset_device_state) op successful 1 (omega arith)
        (omega arith) (omega arith) (omega arith)
