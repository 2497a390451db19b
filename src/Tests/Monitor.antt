-- ===== src/Tests/Monitor.antt =====
-- Removal disconnects and automatic connections at concrete outcomes.
use earport_handoff.Base.{
  ℕ, All, Option, ◌≤◌, ◌≡◌, refl, Bool, true, false, none, some, List, [], ◌∷◌, arith, length, ◌||◌,
}
use earport_handoff.Connection.{
  removal_disconnect_max_attempts, removal_disconnect_retry_should_schedule,
  removal_disconnect_retry_delay_msec,
}
use earport_handoff.Monitor.{
  Outcome, disconnect_device, send_disconnect_request, disconnect_error_is_retryable, is_accepted,
}
use earport_handoff.Base.Text.{Bytes, CString, codes}
use earport_handoff.Base.Int.{pos, negsuc, ◌-ℤ◌}
use earport_handoff.Ble.{
  BleAutoConnectState, BleAirPodsAdvertisement, ble_airpods_bluez_product_id,
  ble_airpods_parse_manufacturer_data, parse_messages, dispatch_message, parse_proximity,
  accept_proximity, ble_airpods_model_supports_wear_autoconnect, model_status_is_worn,
  ble_autoconnect_observe, attempt,
}
use earport_handoff.Ble.Spacing.{Spaced}
use earport_handoff.Monitor.Tables.{
  WearConnect, Surroundings, is_weak, auto_connect_cooldown_usec, auto_connect_confirm_window_usec,
}
use earport_handoff.Monitor.Advertisements.{
  process_apple_manufacturer_data, first_advertisement, observe_advertisement, observe_worn,
  suppress_auto_connect_until_unworn,
}
use earport_handoff.Monitor.Sightings.{Sighting, cache_rssi, see, shown}
use earport_handoff.Monitor.Cooldown.{connect_times, connect_times-Spaced}
use earport_handoff.Monitor.Rewear.{
  Answer, accepted, rearm_after_failure, request_rewear_connect, request_device_connect_attempt,
  retry_rapid_rewear_connect, retries, rapid_rewear_connect_error_is_retryable,
  rewear_error_is_terminal,
}
use earport_handoff.Monitor.Reconnect.{rearmed_fires}
use earport_handoff.Monitor.Cache.{DeviceCache, find_cached_target}
use earport_handoff.Monitor.Cached.{is_some, has_match, find_cached_target_iff}
use earport_handoff.Monitor.Connecting.{connect_only}
use earport_handoff.Monitor.Suppressed.{is_unworn_of, suppress_holds}
use earport_handoff.Monitor.Targets.{
  BluezDeviceInfo, is_skipped, find_unique_paired_target, candidates,
}
use earport_handoff.Monitor.Disconnect.{sum, disconnect_bounds, disconnect_finishes}

abbrev in_progress : Outcome
in_progress = record {
  error =
      some (record { cancelled = false; remote_error = some (codes "org.bluez.Error.InProgress") });
  required = true;
  required_at_retry = true;
}

abbrev not_connected : Outcome
not_connected = record {
  error =
      some
        (record { cancelled = false; remote_error = some (codes "org.bluez.Error.NotConnected") });
  required = true;
  required_at_retry = true;
}

abbrev outcomes : List Outcome
outcomes = in_progress ∷ in_progress ∷ not_connected ∷ not_connected ∷ []

delays-outcomes : (disconnect_device outcomes).delays ≡ 250 ∷ 500 ∷ []
unfolding send_disconnect_request disconnect_error_is_retryable is_accepted
    removal_disconnect_retry_should_schedule removal_disconnect_retry_delay_msec
delays-outcomes = refl

disconnect_bounds_example :
    (length (disconnect_device outcomes).attempts ≤ removal_disconnect_max_attempts)
    × (sum (disconnect_device outcomes).delays ≤ 1750)
disconnect_bounds_example = disconnect_bounds outcomes

disconnect_finishes_example : (b : Bool) × ((disconnect_device outcomes).finished ≡ some b)
disconnect_finishes_example = disconnect_finishes outcomes (omega arith)

abbrev pods : Bytes → Bool → BluezDeviceInfo
pods path connected = record {
  address = none;
  name = none;
  object_path = some path;
  connected = connected;
  paired = true;
  vendor_id = 0x004c;
  product_id = 0x2019;
}

abbrev no_call : CString → Bool
no_call path = false

-- one pair is connected already
abbrev paired : List BluezDeviceInfo
paired = pods (codes "/dev_1") true ∷ pods (codes "/dev_2") false ∷ []

target-paired :
    find_unique_paired_target no_call no_call paired 0x1920
    ≡ (some (pods (codes "/dev_2") false), 1)
unfolding find_unique_paired_target is_skipped ble_airpods_bluez_product_id
target-paired = refl

-- the proximity message of AirPods 4 with a status
abbrev proximity : ℕ → List (ℕ × Option Bytes)
proximity status =
    (
      0x004c,
      some (
          0x07 ∷ 0x19 ∷ 0x01 ∷ 0x19 ∷ 0x20 ∷ status ∷ 0 ∷ 0 ∷ 0 ∷ 0 ∷ 0 ∷ 0 ∷ 0 ∷ 0 ∷ 0 ∷ 0 ∷ 0 ∷ 0
          ∷ 0 ∷ 0 ∷ 0 ∷ 0 ∷ 0 ∷ 0 ∷ 0 ∷ 0 ∷ 0 ∷ []),
    )
    ∷ []

abbrev around : Surroundings
around = record {
  any_known = false;
  paired_devices = paired;
  connect_in_flight = no_call;
  disconnect_in_flight = no_call;
}

-- a monitor that has heard nothing yet
abbrev monitor : WearConnect
monitor = record {
  auto_connect_on_wear = true;
  states = λ path. none;
  state_models = λ path. none;
  model_attempts = λ model. none;
  suppressions = λ model. none;
  advertisement_rssi = λ path. none;
}

-- a signal with -50 dBm
abbrev sighting : ℕ → ℕ → Sighting
sighting status now = record {
  path = codes "/adv";
  rssi = some (record { value = negsuc 49; observed_usec = pos now });
  manufacturer_data = some (proximity status);
  now_usec = pos now;
  around = around;
}

-- taken out of the case, put on, taken off and put on again, seen worn within the cooldown and after
-- it
abbrev sightings : List Sighting
sightings =
    sighting 0 1000000
    ∷ sighting 2 2000000
    ∷ sighting 0 3000000
    ∷ sighting 2 4000000
    ∷ sighting 2 33000000
    ∷ []

abbrev second_pods : BluezDeviceInfo
second_pods = pods (codes "/dev_2") false

times-sightings : connect_times 0x1920 monitor sightings ≡ pos 2000000 ∷ pos 33000000 ∷ []
unfolding see cache_rssi process_apple_manufacturer_data first_advertisement observe_advertisement
    observe_worn ble_airpods_parse_manufacturer_data parse_messages dispatch_message parse_proximity
    accept_proximity ble_airpods_model_supports_wear_autoconnect model_status_is_worn
    ble_autoconnect_observe attempt find_unique_paired_target is_skipped
    ble_airpods_bluez_product_id ◌-ℤ◌
times-sightings = refl

-- after the first sighting, the second one connects
abbrev unworn_monitor : WearConnect
unworn_monitor = (see monitor (sighting 0 1000000)).0

sends-second :
    (process_apple_manufacturer_data unworn_monitor
      (codes "/adv")
      (some (proximity 2))
      (pos 2000000)
      around).1
    ≡ some second_pods
unfolding see cache_rssi process_apple_manufacturer_data first_advertisement observe_advertisement
    observe_worn ble_airpods_parse_manufacturer_data parse_messages dispatch_message parse_proximity
    accept_proximity ble_airpods_model_supports_wear_autoconnect model_status_is_worn
    ble_autoconnect_observe attempt find_unique_paired_target is_skipped
    ble_airpods_bluez_product_id ◌-ℤ◌
sends-second = refl

connect_times-Spaced_example :
    Spaced auto_connect_cooldown_usec (connect_times 0x1920 monitor sightings)
connect_times-Spaced_example =
    connect_times-Spaced 0x1920 sightings monitor (pos 0) refl refl
      (omega arith, (omega arith, (omega arith, (omega arith, (omega arith, tt)))))

connect_only_example :
    (unworn_monitor.auto_connect_on_wear ≡ true)
    × (around.any_known ≡ false)
    × (is_weak (unworn_monitor.advertisement_rssi (codes "/adv")) (pos 2000000) ≡ false)
    × ((a : BleAirPodsAdvertisement) × (first_advertisement (proximity 2) ≡ some a)
        × (a.worn ≡ true)
        × (candidates no_call no_call (ble_airpods_bluez_product_id a.model) paired
            ≡ second_pods ∷ []))
unfolding see cache_rssi
connect_only_example =
    connect_only (pos 2000000) around second_pods unworn_monitor (codes "/adv") (proximity 2)
      (omega arith) sends-second

-- worn advertisements only
abbrev worn_sightings : List Sighting
worn_sightings = sighting 2 1000000 ∷ sighting 2 2000000 ∷ []

suppressed_pods : (suppress_auto_connect_until_unworn unworn_monitor (some second_pods)).1 ≡ true
unfolding suppress_auto_connect_until_unworn
suppressed_pods = refl

sightings_worn :
    All
      (λ o. is_unworn_of (ble_airpods_bluez_product_id 0x2019) (shown o.manufacturer_data) ≡ false)
      worn_sightings
unfolding first_advertisement ble_airpods_parse_manufacturer_data parse_messages dispatch_message
    parse_proximity accept_proximity ble_airpods_model_supports_wear_autoconnect
    model_status_is_worn ble_airpods_bluez_product_id
sightings_worn = (refl, (refl, tt))

suppress_holds_example :
    connect_times
      (ble_airpods_bluez_product_id 0x2019)
      (suppress_auto_connect_until_unworn unworn_monitor (some second_pods)).0
      worn_sightings
    ≡ []
suppress_holds_example =
    suppress_holds unworn_monitor second_pods worn_sightings suppressed_pods sightings_worn

-- the state of a path whose Connect call, sent at 1 s, failed
abbrev failed_path : BleAutoConnectState
failed_path = record {
  has_observed_unworn = true;
  worn_sequence_active = true;
  worn_observations = 2;
  first_worn_observation_usec = pos 0;
  sequence_consumed = true;
  has_attempted = true;
  last_attempt_usec = pos 1000000;
}

abbrev begun_again : BleAutoConnectState × Bool
begun_again =
    ble_autoconnect_observe (rearm_after_failure failed_path) true false (pos 31000000)
      auto_connect_confirm_window_usec auto_connect_cooldown_usec

rearmed_fires_example :
    (begun_again.1 ≡ false)
    × ((ble_autoconnect_observe begun_again.0 true false
          (pos 32000000)
          auto_connect_confirm_window_usec
          auto_connect_cooldown_usec).1
        ≡ true)
unfolding ◌-ℤ◌
rearmed_fires_example =
    rearmed_fires auto_connect_confirm_window_usec auto_connect_cooldown_usec (pos 31000000)
      (pos 32000000) failed_path refl (omega arith) (omega arith) (omega arith) (omega arith)
      (omega arith) (omega arith)

-- a failure that is no reason to give up
abbrev refused_answer : Answer
refused_answer = record {
  error = some (record { cancelled = false; remote_error = some (codes "org.bluez.Error.Failed") });
  disposed = false;
  disposed_at_retry = false;
  known_at_retry = false;
  in_flight_at_retry = false;
}

rewear-retries :
    (request_rewear_connect
      (refused_answer ∷ refused_answer ∷ record refused_answer { error = none } ∷ []))
    ≡ record { attempts = 1 ∷ 2 ∷ 3 ∷ []; delays = 250 ∷ 500 ∷ []; end = accepted }
unfolding request_device_connect_attempt retry_rapid_rewear_connect retries
    rapid_rewear_connect_error_is_retryable rewear_error_is_terminal
rewear-retries = refl

-- the second pods known as connected, and paired
abbrev cached_pods : DeviceCache
cached_pods = record {
  known_devices = (codes "/dev_2", record second_pods { connected = true }) ∷ [];
  paired_devices = (codes "/dev_1", second_pods) ∷ (codes "/dev_2", second_pods) ∷ [];
}

find_cached_target_iff_example : is_some (find_cached_target cached_pods (codes "/dev_2") true) ≡ (
    has_match cached_pods.known_devices (codes "/dev_2") true
    || has_match cached_pods.paired_devices (codes "/dev_2") true)
find_cached_target_iff_example = find_cached_target_iff cached_pods (codes "/dev_2") true
