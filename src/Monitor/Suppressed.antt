-- ===== src/Monitor/Suppressed.antt =====
-- Automatic connections of a model after a handoff.
use earport_handoff.Base.{
  All, ℕ, Bool, true, false, not, ◌&&◌, ◌||◌, Option, none, some, List, [], ◌∷◌, ◌==◌, arith, ◌≡◌,
  refl, ap, ◌∙◌, inl, inr, Bool-cases, if-holds, ==_iff,
}
use earport_handoff.Base.Int.{ℤ, pos}
use earport_handoff.Base.Text.{Bytes}
use earport_handoff.Ble.{
  BleAirPodsAdvertisement, ble_airpods_bluez_product_id, BleHandoffSuppressionState,
  ble_handoff_suppression_observe, ble_handoff_suppression_activate,
}
use earport_handoff.Monitor.Targets.{BluezDeviceInfo}
use earport_handoff.Monitor.Tables.{
  handoff_unworn_rearm_usec, WearConnect, Surroundings, is_weak, tried_lately,
}
use earport_handoff.Monitor.Advertisements.{
  suppress_auto_connect_until_unworn, suppress_model, observe_advertisement, first_advertisement,
  observe_if, process_apple_manufacturer_data,
}
use earport_handoff.Monitor.Attempts.{is_sent, observe_worn-Attempt}
use earport_handoff.Monitor.Steps.{is_of_model}
use earport_handoff.Monitor.Sightings.{Sighting, cache_rssi, see, shown}
use earport_handoff.Monitor.Cooldown.{connect_times, cache_rssi-tables}

-- whether the advertisement shows the model off the ears
abbrev pub is_unworn_of : ℕ → Option BleAirPodsAdvertisement → Bool
is_unworn_of m none = false
is_unworn_of m (some advertisement) = (advertisement.model == m) && not advertisement.worn

-- the model's suppression is active
abbrev pub IsSuppressed : ℕ → WearConnect → Type 0
IsSuppressed m monitor =
    (s : BleHandoffSuppressionState) × (monitor.suppressions m ≡ some s) × (s.active ≡ true)

worn_holds :
    (s : BleHandoffSuppressionState) (worn : Bool) (now : ℤ)
    → s.active ≡ true
    → worn ≡ true
    → let observed = ble_handoff_suppression_observe s worn now handoff_unworn_rearm_usec in
      (observed.1 ≡ true) × (observed.0.active ≡ true)
unfolding ble_handoff_suppression_observe
worn_holds s worn now h w = (ground arith, ground arith)

module _ (m : ℕ) (now : ℤ) (around : Surroundings) where
  abbrev IsHeld : WearConnect × Option BluezDeviceInfo → Bool → Type 0
  IsHeld r sent_for = ((is_sent r.1 && sent_for) ≡ false) × IsSuppressed m r.0

  suppress_same :
      (monitor : WearConnect) (a : BleAirPodsAdvertisement) (s : BleHandoffSuppressionState)
      → monitor.suppressions m ≡ some s
      → s.active ≡ true
      → (a.model == m) ≡ true
      → a.worn ≡ true
      → let suppressed = suppress_model monitor a now (monitor.suppressions a.model) in
        (suppressed.1 ≡ true) × IsSuppressed m suppressed.0
  suppress_same monitor a s h active same worn =
      let here : monitor.suppressions a.model ≡ some s =
        ap monitor.suppressions ((==_iff a.model m).0 same) ∙ h in
      let observed = ble_handoff_suppression_observe s a.worn now handoff_unworn_rearm_usec in
      let (held, still) = worn_holds s a.worn now active worn in
      rw (here, held) (refl, (observed.0, rw same refl, still))

  suppress_away :
      (monitor : WearConnect) (a : BleAirPodsAdvertisement)
      (old : Option BleHandoffSuppressionState)
      → (a.model == m) ≡ false
      → (suppress_model monitor a now old).0.suppressions m ≡ monitor.suppressions m
  suppress_away monitor a none away = refl
  suppress_away monitor a (some s) away =
      let observed = ble_handoff_suppression_observe s a.worn now handoff_unworn_rearm_usec in
      if-holds (λ (r : WearConnect × Bool). r.0.suppressions m ≡ monitor.suppressions m) observed.1
        _ _ (λ held. rw away refl) (λ released. rw away refl)

  away-IsHeld :
      (monitor : WearConnect) (path : Bytes) (a : BleAirPodsAdvertisement)
      → IsSuppressed m monitor
      → (a.model == m) ≡ false
      → IsHeld (observe_advertisement monitor path a now around) (a.model == m)
  unfolding observe_advertisement
  away-IsHeld monitor path a (s, h, active) away =
      let suppressed = suppress_model monitor a now (monitor.suppressions a.model) in
      let kept = suppress_away monitor a (monitor.suppressions a.model) away ∙ h in
      let good = λ (r : WearConnect × Option BluezDeviceInfo). IsHeld r (a.model == m) in
      if-holds good (a.worn && is_weak (monitor.advertisement_rssi path) now) _ _
        (λ e. (refl, (s, h, active)))
        (λ strong.
          if-holds good suppressed.1 _ _ (λ e. (refl, (s, kept, active)))
            (λ unheld.
              if-holds good (a.worn && tried_lately (suppressed.0.model_attempts a.model) now) _ _
                (λ e. (refl, (s, kept, active)))
                (λ fresh. (
                  rw away (ground arith),
                  (s, (observe_worn-Attempt m now around suppressed.0 path a).1 ∙ kept, active),
                ))))

  same-IsHeld :
      (monitor : WearConnect) (path : Bytes) (a : BleAirPodsAdvertisement)
      → IsSuppressed m monitor
      → (a.model == m) ≡ true
      → a.worn ≡ true
      → IsHeld (observe_advertisement monitor path a now around) (a.model == m)
  unfolding observe_advertisement
  same-IsHeld monitor path a (s, h, active) same worn =
      let (held, still) = suppress_same monitor a s h active same worn in
      let good = λ (r : WearConnect × Option BluezDeviceInfo). IsHeld r (a.model == m) in
      if-holds good (a.worn && is_weak (monitor.advertisement_rssi path) now) _ _
        (λ e. (refl, (s, h, active))) (λ strong. rw held (refl, still))

  observe_if-IsHeld :
      (monitor : WearConnect) (path : Bytes) (a : Option BleAirPodsAdvertisement)
      → IsSuppressed m monitor
      → is_unworn_of m a ≡ false
      → IsHeld (observe_if monitor path now around a) (is_of_model m a)
  observe_if-IsHeld monitor path none v h = (refl, v)
  observe_if-IsHeld monitor path (some a) v h = elim (Bool-cases (a.model == m)) [
    | inl same ↦ same-IsHeld monitor path a v same (ground arith)
    | inr away ↦ away-IsHeld monitor path a v away
  ]

  see-IsHeld :
      (monitor : WearConnect) (path : Bytes) (entries : List (ℕ × Option Bytes))
      → IsSuppressed m monitor
      → is_unworn_of m (first_advertisement entries) ≡ false
      → IsHeld
          (process_apple_manufacturer_data monitor path (some entries) now around)
          (is_of_model m (first_advertisement entries))
  unfolding process_apple_manufacturer_data
  see-IsHeld monitor path entries v h =
      if-holds
        (λ (r : WearConnect × Option BluezDeviceInfo).
          IsHeld r (is_of_model m (first_advertisement entries)))
        (not monitor.auto_connect_on_wear || around.any_known) _ _ (λ off. (refl, v))
        (λ on. observe_if-IsHeld monitor path (first_advertisement entries) v h)

  process-IsHeld :
      (monitor : WearConnect) (path : Bytes) (entries : Option (List (ℕ × Option Bytes)))
      → IsSuppressed m monitor
      → is_unworn_of m (shown entries) ≡ false
      → IsHeld
          (process_apple_manufacturer_data monitor path entries now around)
          (is_of_model m (shown entries))
  unfolding process_apple_manufacturer_data
  process-IsHeld monitor path none v h = (refl, v)
  process-IsHeld monitor path (some entries) v h = see-IsHeld monitor path entries v h

-- a signal whose advertisement, if any, does not show the model off the ears
sight-IsHeld :
    (m : ℕ) (monitor : WearConnect) (o : Sighting)
    → IsSuppressed m monitor
    → is_unworn_of m (shown o.manufacturer_data) ≡ false
    → IsHeld m o.now_usec o.around (see monitor o) (is_of_model m (shown o.manufacturer_data))
unfolding see
sight-IsHeld m monitor o (s, h, active) unseen =
    let cached = cache_rssi monitor o.path o.rssi in
    let kept = (cache_rssi-tables m monitor o.path o.rssi).0 ∙ h in
    process-IsHeld m o.now_usec o.around cached o.path o.manufacturer_data (s, kept, active) unseen

run-IsSuppressed :
    (m : ℕ) (os : List Sighting) (monitor : WearConnect)
    → IsSuppressed m monitor
    → All (λ o. is_unworn_of m (shown o.manufacturer_data) ≡ false) os
    → connect_times m monitor os ≡ []
run-IsSuppressed m [] monitor v h = refl
run-IsSuppressed m (o ∷ os) monitor v (first, h) =
    let (unsent, v') = sight-IsHeld m monitor o v first in
    rw unsent (run-IsSuppressed m os (see monitor o).0 v' h)

suppress-IsSuppressed :
    (monitor : WearConnect) (device : BluezDeviceInfo)
    → (suppress_auto_connect_until_unworn monitor (some device)).1 ≡ true
    → IsSuppressed
        (ble_airpods_bluez_product_id device.product_id)
        (suppress_auto_connect_until_unworn monitor (some device)).0
unfolding suppress_auto_connect_until_unworn ble_handoff_suppression_activate
suppress-IsSuppressed monitor device =
    let m = ble_airpods_bluez_product_id device.product_id in
    let same : (m == m) ≡ true = (==_iff m m).1 refl in
    if-holds (λ (r : WearConnect × Bool). r.1 ≡ true → IsSuppressed m r.0) (device.product_id == 0)
      _ _ (λ e ok. absurd (ground arith))
      (λ e ok.
        (record { active = true; first_unworn_observation_usec = pos 0 }, rw same refl, refl))

-- After the automatic connection of a device with a product identifier has been suppressed, with
-- success, no Connect is sent for its model at any signals, of any devices, with any strengths and
-- advertisements, as long as no advertisement shows the model off the ears.
pub suppress_holds :
    (monitor : WearConnect) (device : BluezDeviceInfo) (os : List Sighting)
    → (suppress_auto_connect_until_unworn monitor (some device)).1 ≡ true
    → All
        (λ o.
          is_unworn_of (ble_airpods_bluez_product_id device.product_id) (shown o.manufacturer_data)
          ≡ false)
        os
    → connect_times
        (ble_airpods_bluez_product_id device.product_id)
        (suppress_auto_connect_until_unworn monitor (some device)).0
        os
      ≡ []
suppress_holds monitor device os ok =
    run-IsSuppressed (ble_airpods_bluez_product_id device.product_id) os
      (suppress_auto_connect_until_unworn monitor (some device)).0
      (suppress-IsSuppressed monitor device ok)
