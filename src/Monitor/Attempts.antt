-- ===== src/Monitor/Attempts.antt =====
-- When an observation makes the monitor attempt a connection to a model.
use earport_handoff.Base.{
  ℕ, Bool, true, false, not, ◌&&◌, Option, none, some, ◌==◌, arith, ◌≡◌, refl, ◌⊎◌, inl, inr,
  Bool-cases, if-holds,
}
use earport_handoff.Base.Int.{ℤ}
use earport_handoff.Base.Text.{Bytes}
use earport_handoff.State.{model_max_2, model_value}
use earport_handoff.Ble.{BleAirPodsAdvertisement, BleAutoConnectState, ble_autoconnect_observe}
use earport_handoff.Monitor.Targets.{BluezDeviceInfo, find_unique_paired_target}
use earport_handoff.Monitor.Tables.{
  auto_connect_confirm_window_usec, auto_connect_cooldown_usec, WearConnect, Surroundings, put_path,
  state_or_new, is_fast,
}
use earport_handoff.Monitor.Advertisements.{connect_target, observe_worn}

abbrev pub is_sent : Option BluezDeviceInfo → Bool
is_sent none = false
is_sent (some target) = true

pub fires_worn :
    (state : BleAutoConnectState) (worn fast : Bool) (now window cooldown : ℤ)
    → (ble_autoconnect_observe state worn fast now window cooldown).1 ≡ true
    → worn ≡ true
unfolding ble_autoconnect_observe
fires_worn state worn fast now window cooldown h = ground arith

module _ (m : ℕ) (now : ℤ) (around : Surroundings) where
  -- What an observation of a model does to the last attempt for `m`: nothing, and no Connect is sent
  -- for it; or it is a worn one of `m`, and the attempt is now.
  abbrev pub Attempt :
      WearConnect → BleAirPodsAdvertisement → WearConnect × Option BluezDeviceInfo → Type 0
  Attempt monitor advertisement r =
      ((r.0.model_attempts m ≡ monitor.model_attempts m)
        × ((is_sent r.1 && (advertisement.model == m)) ≡ false))
      ⊎ ((r.0.model_attempts m ≡ some now)
          × ((advertisement.model == m) ≡ true)
          × (advertisement.worn ≡ true))

  connect-Attempt :
      (monitor observed before : WearConnect) (advertisement : BleAirPodsAdvertisement)
      (target : Option BluezDeviceInfo)
      → observed.model_attempts m ≡ monitor.model_attempts m
      → before.model_attempts m ≡ monitor.model_attempts m
      → advertisement.worn ≡ true
      → Attempt monitor advertisement
          (connect_target observed before advertisement.model now around target)
  connect-Attempt monitor observed before advertisement none h h' worn = inl (h', refl)
  connect-Attempt monitor observed before advertisement (some target) h h' worn =
      elim (Bool-cases (advertisement.model == m)) [
        | inl same ↦ inr (rw same refl, same, worn)
        | inr other ↦ inl (rw other h, rw other (ground arith))
      ]

  idle-Attempt :
      (monitor monitor' : WearConnect) (advertisement : BleAirPodsAdvertisement)
      → monitor'.model_attempts m ≡ monitor.model_attempts m
      → Attempt monitor advertisement (monitor', none)
  idle-Attempt monitor monitor' advertisement h = inl (h, refl)

  connect-suppressions :
      (monitor observed before : WearConnect) (model : ℕ) (target : Option BluezDeviceInfo)
      → observed.suppressions m ≡ monitor.suppressions m
      → before.suppressions m ≡ monitor.suppressions m
      → (connect_target observed before model now around target).0.suppressions m
        ≡ monitor.suppressions m
  connect-suppressions monitor observed before model none h h' = h'
  connect-suppressions monitor observed before model (some target) h h' = h

  pub observe_worn-Attempt :
      (monitor : WearConnect) (path : Bytes) (advertisement : BleAirPodsAdvertisement)
      → let r = observe_worn monitor path advertisement now around in
        Attempt monitor advertisement r × (r.0.suppressions m ≡ monitor.suppressions m)
  unfolding observe_worn
  observe_worn-Attempt monitor path advertisement =
      let state = state_or_new (monitor.states path) in
      let fast =
        advertisement.worn
        && not (advertisement.model == model_value model_max_2)
        && is_fast (monitor.advertisement_rssi path) in
      let observed =
        ble_autoconnect_observe state advertisement.worn fast now auto_connect_confirm_window_usec
          auto_connect_cooldown_usec in
      let before : WearConnect = record monitor {
        states = put_path monitor.states path state;
        state_models = put_path monitor.state_models path advertisement.model;
      } in
      let after : WearConnect = record before {
        states = put_path monitor.states path observed.0;
      } in
      let target =
        find_unique_paired_target around.connect_in_flight around.disconnect_in_flight
          around.paired_devices advertisement.model in
      if-holds
        (λ (r : WearConnect × Option BluezDeviceInfo).
          Attempt monitor advertisement r × (r.0.suppressions m ≡ monitor.suppressions m))
        observed.1 (connect_target after before advertisement.model now around target.0)
        (after, none)
        (λ fired. (
          connect-Attempt monitor after before advertisement target.0 refl refl (
              fires_worn state advertisement.worn fast now auto_connect_confirm_window_usec
                auto_connect_cooldown_usec fired),
          connect-suppressions monitor after before advertisement.model target.0 refl refl,
        ))
        (λ idle. (idle-Attempt monitor after advertisement refl, refl))
