-- ===== src/Monitor/Connecting.antt =====
-- What an automatic connection needs, and to which device it goes.
use earport_handoff.Base.{
  ◌<◌, ◌^◌, length, ℕ, true, false, not, ◌&&◌, ◌||◌, Option, none, some, List, [], ◌∷◌, ◌==◌, arith,
  ◌≡◌, sym, ap, ◌∙◌, inl, inr, Bool-cases, Option-cases, if-holds,
}
use earport_handoff.Base.Int.{ℤ}
use earport_handoff.Base.Text.{Bytes}
use earport_handoff.State.{model_max_2, model_value}
use earport_handoff.Ble.{
  BleAirPodsAdvertisement, ble_airpods_bluez_product_id, ble_autoconnect_observe,
}
use earport_handoff.Monitor.Targets.{BluezDeviceInfo, find_unique_paired_target}
use earport_handoff.Monitor.Tables.{
  auto_connect_confirm_window_usec, auto_connect_cooldown_usec, WearConnect, Surroundings,
  state_or_new, is_weak, is_fast, tried_lately,
}
use earport_handoff.Monitor.Advertisements.{
  suppress_model, connect_target, observe_worn, observe_advertisement, first_advertisement,
  process_apple_manufacturer_data,
}
use earport_handoff.Monitor.Attempts.{fires_worn}
use earport_handoff.Monitor.Steps.{and_false}
use earport_handoff.Monitor.Targets.{candidates, find_unique-candidates}

module _ (now : ℤ) (around : Surroundings) (target : BluezDeviceInfo) where
  connect-needs :
      (observed before : WearConnect) (model : ℕ) (found : Option BluezDeviceInfo)
      → (connect_target observed before model now around found).1 ≡ some target
      → (found ≡ some target) × (around.connect_in_flight target.object_path ≡ false)
  connect-needs observed before model none h = absurd (cc h)
  connect-needs observed before model (some device) h =
      elim (Bool-cases (around.connect_in_flight device.object_path)) [
        | inl busy ↦ absurd (ground arith)
        | inr idle ↦
            let same : device ≡ target = cc (rw idle at h) in
            (
              ap some same,
              ap (λ (x : BluezDeviceInfo). around.connect_in_flight x.object_path) (sym same)
                  ∙ idle,
            )
      ]

  -- a device is found for the model of a worn advertisement
  abbrev Found : BleAirPodsAdvertisement → Type 0
  Found advertisement =
      (advertisement.worn ≡ true)
      × ((find_unique_paired_target around.connect_in_flight around.disconnect_in_flight
            around.paired_devices advertisement.model).0
          ≡ some target)
      × (around.connect_in_flight target.object_path ≡ false)

  observe_worn-needs :
      (monitor : WearConnect) (path : Bytes) (advertisement : BleAirPodsAdvertisement)
      → (observe_worn monitor path advertisement now around).1 ≡ some target
      → Found advertisement
  unfolding observe_worn
  observe_worn-needs monitor path advertisement =
      let state = state_or_new (monitor.states path) in
      let fast =
        advertisement.worn
        && not (advertisement.model == model_value model_max_2)
        && is_fast (monitor.advertisement_rssi path) in
      let observed =
        ble_autoconnect_observe state advertisement.worn fast now auto_connect_confirm_window_usec
          auto_connect_cooldown_usec in
      if-holds
        (λ (r : WearConnect × Option BluezDeviceInfo). r.1 ≡ some target → Found advertisement)
        observed.1 _ _
        (λ fired h.
          let (found, idle) = connect-needs _ _ advertisement.model _ h in
          (
            fires_worn state advertisement.worn fast now auto_connect_confirm_window_usec
                auto_connect_cooldown_usec fired,
            found,
            idle,
          ))
        (λ idle h. absurd (cc h))

  observe_advertisement-needs :
      (monitor : WearConnect) (path : Bytes) (advertisement : BleAirPodsAdvertisement)
      → (observe_advertisement monitor path advertisement now around).1 ≡ some target
      → (is_weak (monitor.advertisement_rssi path) now ≡ false) × Found advertisement
  unfolding observe_advertisement
  observe_advertisement-needs monitor path advertisement =
      let suppressed =
        suppress_model monitor advertisement now (monitor.suppressions advertisement.model) in
      let weak = is_weak (monitor.advertisement_rssi path) now in
      let good = λ (r : WearConnect × Option BluezDeviceInfo).
        r.1 ≡ some target → (weak ≡ false) × Found advertisement in
      if-holds good (advertisement.worn && weak) _ _ (λ e h. absurd (cc h))
        (λ strong.
          if-holds good suppressed.1 _ _ (λ e h. absurd (cc h))
            (λ unheld.
              if-holds good
                (advertisement.worn
                  && tried_lately (suppressed.0.model_attempts advertisement.model) now)
                _ _ (λ e h. absurd (cc h))
                (λ fresh h.
                  let found = observe_worn-needs suppressed.0 path advertisement h in
                  (and_false advertisement.worn weak found.0 strong, found))))

  -- When a Connect is sent at an advertisement, with fewer than 2 ^ 32 devices paired: connecting on
  -- wear is enabled and no device is known; the first Apple entry that parses is worn; its signal was
  -- strong enough at most five seconds before; and the device is the only paired one that is not
  -- connected, is of Apple's vendor identifier and the advertised model, and has no call in flight.
  pub connect_only :
      (monitor : WearConnect) (path : Bytes) (entries : List (ℕ × Option Bytes))
      → length around.paired_devices < 2 ^ 32
      → (process_apple_manufacturer_data monitor path (some entries) now around).1 ≡ some target
      → (monitor.auto_connect_on_wear ≡ true)
        × (around.any_known ≡ false)
        × (is_weak (monitor.advertisement_rssi path) now ≡ false)
        × ((a : BleAirPodsAdvertisement) × (first_advertisement entries ≡ some a)
            × (a.worn ≡ true)
            × (candidates around.connect_in_flight around.disconnect_in_flight
                  (ble_airpods_bluez_product_id a.model)
                  around.paired_devices
                ≡ target ∷ []))
  unfolding process_apple_manufacturer_data
  connect_only monitor path entries few sent =
      elim (Bool-cases (not monitor.auto_connect_on_wear || around.any_known)) [
        | inl off ↦ absurd (cc (rw off at sent))
        | inr on ↦ elim (Option-cases (first_advertisement entries)) [
          | inl e ↦ absurd (cc (rw (on, e) at sent))
          | inr (a, e) ↦
              let (strong, found) =
                observe_advertisement-needs monitor path a (rw (on, e) at sent) in
              let unique =
                find_unique-candidates around.connect_in_flight around.disconnect_in_flight
                  around.paired_devices a.model target few in
              (ground arith, ground arith, strong, (a, e, found.0, unique.0.0 found.1))
        ]
      ]
