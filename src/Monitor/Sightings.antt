-- ===== src/Monitor/Sightings.antt =====
-- A signal about an advertising device as it reaches the monitor, from on_properties_changed or
-- on_interfaces_added: first the signal strength is recorded, then the advertisement is taken.
use earport_handoff.Base.{ℕ, Option, none, some, List}
use earport_handoff.Base.Int.{ℤ}
use earport_handoff.Base.Text.{Bytes}
use earport_handoff.Ble.{BleAirPodsAdvertisement}
use earport_handoff.Monitor.Targets.{BluezDeviceInfo}
use earport_handoff.Monitor.Tables.{AdvertisementRssi, WearConnect, Surroundings, put_path}
use earport_handoff.Monitor.Advertisements.{first_advertisement, process_apple_manufacturer_data}

-- The properties of the signal, none where it lacks them: the strength with the time at which it is
-- recorded, and the manufacturer data, which are taken at `now_usec`.
pub record Sighting : Type 0 where
  pub path : Bytes
  pub rssi : Option AdvertisementRssi
  pub manufacturer_data : Option (List (ℕ × Option Bytes))
  pub now_usec : ℤ
  pub around : Surroundings

unfoldable pub cache_rssi : WearConnect → Bytes → Option AdvertisementRssi → WearConnect
cache_rssi monitor object_path none = monitor
cache_rssi monitor object_path (some rssi) = record monitor {
  advertisement_rssi = put_path monitor.advertisement_rssi object_path rssi;
}

unfoldable pub see : WearConnect → Sighting → WearConnect × Option BluezDeviceInfo
unfolding cache_rssi process_apple_manufacturer_data
see monitor o =
    process_apple_manufacturer_data (cache_rssi monitor o.path o.rssi) o.path o.manufacturer_data
      o.now_usec o.around

-- the advertisement that the manufacturer data show
abbrev pub shown : Option (List (ℕ × Option Bytes)) → Option BleAirPodsAdvertisement
shown none = none
shown (some manufacturer_data) = first_advertisement manufacturer_data
