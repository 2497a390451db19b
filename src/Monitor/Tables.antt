-- ===== src/Monitor/Tables.antt =====
-- The tables of bluez_monitor.c that decide on automatic connections, and the tests on their values.
-- The tables are functions from their keys, a removed key having no value.
use earport_handoff.Base.{
  ℕ, Bool, true, false, not, ◌&&◌, ◌||◌, Option, none, some, List, ◌==◌, bytes_equal, if◌then◌else◌,
}
use earport_handoff.Base.Int.{ℤ, pos, negsuc, ltb_ℤ, ◌-ℤ◌}
use earport_handoff.Base.Text.{Bytes, CString}
use earport_handoff.Ble.{BleAutoConnectState, BleHandoffSuppressionState}
use earport_handoff.Monitor.Targets.{BluezDeviceInfo}

abbrev pub auto_connect_min_rssi_dbm : ℤ
auto_connect_min_rssi_dbm = negsuc 69

abbrev pub auto_connect_fast_rssi_dbm : ℤ
auto_connect_fast_rssi_dbm = negsuc 59

abbrev pub auto_connect_confirm_window_usec : ℤ
auto_connect_confirm_window_usec = pos 2000000

abbrev pub auto_connect_cooldown_usec : ℤ
auto_connect_cooldown_usec = pos 30000000

abbrev pub auto_connect_rssi_max_age_usec : ℤ
auto_connect_rssi_max_age_usec = pos 5000000

abbrev pub handoff_unworn_rearm_usec : ℤ
handoff_unworn_rearm_usec = pos 750000

pub record AdvertisementRssi : Type 0 where
  pub value : ℤ
  pub observed_usec : ℤ

-- the tables by advertising path, and those by BLE model
pub record WearConnect : Type 0 where
  pub auto_connect_on_wear : Bool
  pub states : Bytes → Option BleAutoConnectState
  pub state_models : Bytes → Option ℕ
  pub model_attempts : ℕ → Option ℤ
  pub suppressions : ℕ → Option BleHandoffSuppressionState
  pub advertisement_rssi : Bytes → Option AdvertisementRssi

-- what the monitor knows of other devices when an advertisement comes
pub record Surroundings : Type 0 where
  pub any_known : Bool
  pub paired_devices : List BluezDeviceInfo
  pub connect_in_flight : CString → Bool
  pub disconnect_in_flight : CString → Bool

abbrev pub put_model : {V : Type 0} → (ℕ → Option V) → ℕ → Option V → ℕ → Option V
put_model table model v key = if model == key then v else table key

abbrev pub put_path : {V : Type 0} → (Bytes → Option V) → Bytes → V → Bytes → Option V
put_path table path v key = if bytes_equal path key then some v else table key

-- `g_new0`
abbrev pub new_state : BleAutoConnectState
new_state = record {
  has_observed_unworn = false;
  worn_sequence_active = false;
  worn_observations = 0;
  first_worn_observation_usec = pos 0;
  sequence_consumed = false;
  has_attempted = false;
  last_attempt_usec = pos 0;
}

abbrev pub state_or_new : Option BleAutoConnectState → BleAutoConnectState
state_or_new none = new_state
state_or_new (some state) = state

-- `rssi == NULL` or one of the tests on it
abbrev pub is_weak : Option AdvertisementRssi → ℤ → Bool
is_weak none now_usec = true
is_weak (some rssi) now_usec =
    ltb_ℤ rssi.value auto_connect_min_rssi_dbm
    || ltb_ℤ now_usec rssi.observed_usec
    || ltb_ℤ auto_connect_rssi_max_age_usec (now_usec -ℤ rssi.observed_usec)

abbrev pub is_fast : Option AdvertisementRssi → Bool
is_fast none = false
is_fast (some rssi) = not (ltb_ℤ rssi.value auto_connect_fast_rssi_dbm)

-- the model was tried within the cooldown
abbrev pub tried_lately : Option ℤ → ℤ → Bool
tried_lately none now_usec = false
tried_lately (some last) now_usec =
    not (ltb_ℤ now_usec last) && ltb_ℤ (now_usec -ℤ last) auto_connect_cooldown_usec
