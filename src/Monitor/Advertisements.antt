-- ===== src/Monitor/Advertisements.antt =====
-- What an advertisement leads to: `process_apple_manufacturer_data` of daemon/src/bluez_monitor.c,
-- and the operations that suppress and rearm a model. The paired devices, whether any device is known, and the calls in
-- flight are inputs, as is the time.
use earport_handoff.Base.{
  ℕ, Bool, true, false, not, ◌&&◌, ◌||◌, Option, none, some, List, [], ◌∷◌, ◌==◌, if◌then◌else◌,
}
use earport_handoff.Base.Int.{ℤ, pos}
use earport_handoff.Base.Text.{Bytes}
use earport_handoff.State.{model_max_2, model_value}
use earport_handoff.Ble.{
  BleAirPodsAdvertisement, ble_airpods_parse_manufacturer_data, ble_airpods_bluez_product_id,
  BleHandoffSuppressionState, ble_autoconnect_observe, ble_handoff_suppression_observe,
  ble_handoff_suppression_activate,
}
use earport_handoff.Monitor.Targets.{BluezDeviceInfo, apple_company_id, find_unique_paired_target}
use earport_handoff.Monitor.Tables.{
  auto_connect_confirm_window_usec, auto_connect_cooldown_usec, handoff_unworn_rearm_usec,
  WearConnect, Surroundings, put_model, put_path, state_or_new, is_weak, is_fast, tried_lately,
}

-- the suppression of the model, and whether it holds the advertisement back
abbrev pub suppress_model :
    WearConnect
    → BleAirPodsAdvertisement
    → ℤ
    → Option BleHandoffSuppressionState
    → WearConnect × Bool
suppress_model monitor advertisement now_usec none = (monitor, false)
suppress_model monitor advertisement now_usec (some suppression) =
    let observed =
      ble_handoff_suppression_observe suppression advertisement.worn now_usec
        handoff_unworn_rearm_usec in
    let model = advertisement.model in
    if observed.1
    then (
      record monitor { suppressions = put_model monitor.suppressions model (some observed.0) },
      true,
    )
    else (
      record monitor {
        suppressions = put_model monitor.suppressions model none;
        model_attempts = put_model monitor.model_attempts model none;
      },
      false,
    )

-- with a device found, or none
abbrev pub connect_target :
    WearConnect
    → (before : WearConnect) → ℕ
    → ℤ
    → Surroundings
    → Option BluezDeviceInfo
    → WearConnect × Option BluezDeviceInfo
connect_target observed before model now_usec around none = (before, none)
connect_target observed before model now_usec around (some target) = (
  record observed { model_attempts = put_model observed.model_attempts model (some now_usec) },
  if around.connect_in_flight target.object_path then none else some target,
)

-- the edge detector of the path, and the connection
unfoldable pub observe_worn :
    WearConnect
    → Bytes
    → BleAirPodsAdvertisement
    → ℤ
    → Surroundings
    → WearConnect × Option BluezDeviceInfo
observe_worn monitor path advertisement now_usec around =
    let model = advertisement.model in
    let state = state_or_new (monitor.states path) in
    let fast =
      advertisement.worn
      && not (model == model_value model_max_2)
      && is_fast (monitor.advertisement_rssi path) in
    let observed =
      ble_autoconnect_observe state advertisement.worn fast now_usec
        auto_connect_confirm_window_usec auto_connect_cooldown_usec in
    let before : WearConnect = record monitor {
      states = put_path monitor.states path state;
      state_models = put_path monitor.state_models path model;
    } in
    let after : WearConnect = record before { states = put_path monitor.states path observed.0 } in
    let target =
      find_unique_paired_target around.connect_in_flight around.disconnect_in_flight
        around.paired_devices model in
    if observed.1 then connect_target after before model now_usec around target.0 else (after, none)

-- the part after the parse
unfoldable pub observe_advertisement :
    WearConnect
    → Bytes
    → BleAirPodsAdvertisement
    → ℤ
    → Surroundings
    → WearConnect × Option BluezDeviceInfo
unfolding observe_worn
observe_advertisement monitor path advertisement now_usec around =
    let suppressed =
      suppress_model monitor advertisement now_usec (monitor.suppressions advertisement.model) in
    let released = suppressed.0 in
    if advertisement.worn && is_weak (monitor.advertisement_rssi path) now_usec
    then (monitor, none)
    else if suppressed.1
    then (released, none)
    else if advertisement.worn
        && tried_lately (released.model_attempts advertisement.model) now_usec
    then (released, none)
    else observe_worn released path advertisement now_usec around

-- the parse's result; it never fails to return
abbrev pub parsed : Option (Option BleAirPodsAdvertisement) → Option BleAirPodsAdvertisement
parsed none = none
parsed (some advertisement) = advertisement

abbrev pub or_later :
    Option BleAirPodsAdvertisement → Option BleAirPodsAdvertisement → Option BleAirPodsAdvertisement
or_later none later = later
or_later (some advertisement) later = some advertisement

-- The loop over the entries, each a company and its bytes, none where they are no byte string: the
-- first one of Apple's that parses.
unfoldable pub first_advertisement : List (ℕ × Option Bytes) → Option BleAirPodsAdvertisement
first_advertisement [] = none
first_advertisement ((company_id, none) ∷ entries) = first_advertisement entries
first_advertisement ((company_id, some bytes) ∷ entries) =
    let later = first_advertisement entries in
    or_later
      (if company_id == apple_company_id
        then parsed (ble_airpods_parse_manufacturer_data (some bytes))
        else none)
      later

abbrev pub observe_if :
    WearConnect
    → Bytes
    → ℤ
    → Surroundings
    → Option BleAirPodsAdvertisement
    → WearConnect × Option BluezDeviceInfo
observe_if monitor path now_usec around none = (monitor, none)
observe_if monitor path now_usec around (some advertisement) =
    observe_advertisement monitor path advertisement now_usec around

-- the new state, and the device that a Connect is sent to, if any
unfoldable pub process_apple_manufacturer_data :
    WearConnect
    → Bytes
    → Option (List (ℕ × Option Bytes))
    → ℤ
    → Surroundings
    → WearConnect × Option BluezDeviceInfo
unfolding first_advertisement observe_advertisement
process_apple_manufacturer_data monitor path none now_usec around = (monitor, none)
process_apple_manufacturer_data monitor path (some manufacturer_data) now_usec around =
    let observed =
      observe_if monitor path now_usec around (first_advertisement manufacturer_data) in
    if not monitor.auto_connect_on_wear || around.any_known then (monitor, none) else observed

-- `bluez_monitor_suppress_auto_connect_until_unworn` with the device that it found
unfoldable pub suppress_auto_connect_until_unworn :
    WearConnect → Option BluezDeviceInfo → WearConnect × Bool
unfolding ble_handoff_suppression_activate
suppress_auto_connect_until_unworn monitor none = (monitor, false)
suppress_auto_connect_until_unworn monitor (some matched) =
    let model = ble_airpods_bluez_product_id matched.product_id in
    let activated =
      ble_handoff_suppression_activate
        (record { active = false; first_unworn_observation_usec = pos 0 }) in
    if matched.product_id == 0 then (monitor, false) else (
      record monitor { suppressions = put_model monitor.suppressions model (some activated) },
      true,
    )

abbrev pub is_model : ℕ → Option ℕ → Bool
is_model model none = false
is_model model (some other) = other == model

-- the iteration removes every path of the model
unfoldable pub rearm_auto_connect_model : WearConnect → ℕ → WearConnect × Bool
rearm_auto_connect_model monitor product_id =
    let model = ble_airpods_bluez_product_id product_id in
    if product_id == 0 then (monitor, false) else (
      record monitor {
        model_attempts = put_model monitor.model_attempts model none;
        suppressions = put_model monitor.suppressions model none;
        states = λ path.
            if is_model model (monitor.state_models path) then none else monitor.states path;
        state_models = λ path.
            if is_model model (monitor.state_models path) then none else monitor.state_models path;
      },
      true,
    )
