-- ===== src/Monitor/Cache.antt =====
-- The cached devices: what a signal changes in one, the merge of its two copies, and the search for
-- the device of a selector. A table is the list of its entries in the order of an iteration, whose
-- keys are distinct. How sscanf reads a modalias is a parameter.
use earport_handoff.Base.{
  ℕ, Bool, false, not, ◌&&◌, ◌||◌, Option, none, some, List, [], ◌∷◌, ◌==◌, map, ltb, bytes_equal,
  if◌then◌else◌,
}
use earport_handoff.Base.Text.{Bytes, CString, lower}
use earport_handoff.Monitor.Targets.{BluezDeviceInfo}

-- the properties that the code looks up; none is one that the dictionary lacks
pub record DeviceProperties : Type 0 where
  pub address_property : Option Bytes
  pub name_property : Option Bytes
  pub connected_property : Option Bool
  pub paired_property : Option Bool
  pub modalias_property : Option Bytes

pub record DeviceCache : Type 0 where
  pub known_devices : List (Bytes × BluezDeviceInfo)
  pub paired_devices : List (Bytes × BluezDeviceInfo)

abbrev pub or_old : {A : Type 0} → Option A → A → A
or_old none old = old
or_old (some value) old = value

abbrev pub or_old_string : Option Bytes → CString → CString
or_old_string none old = old
or_old_string (some value) old = some value

module _ (scan_modalias : Bytes → Option (ℕ × ℕ)) where
  -- the two numbers, where sscanf reads both and they fit
  abbrev pub fitting : Option (ℕ × ℕ) → Option (ℕ × ℕ)
  fitting none = none
  fitting (some (vendor, product)) =
      if ltb 65535 vendor || ltb 65535 product then none else some (vendor, product)

  unfoldable pub parse_bluez_modalias : Bytes → Option (ℕ × ℕ)
  parse_bluez_modalias modalias = fitting (scan_modalias modalias)

  abbrev pub ids_or_zero : Option (ℕ × ℕ) → ℕ × ℕ
  ids_or_zero none = (0, 0)
  ids_or_zero (some ids) = ids

  abbrev pub modalias_ids : Option Bytes → BluezDeviceInfo → ℕ × ℕ
  modalias_ids none info = (info.vendor_id, info.product_id)
  modalias_ids (some modalias) info = ids_or_zero (parse_bluez_modalias modalias)

  unfoldable pub device_info_apply_properties : BluezDeviceInfo → DeviceProperties → BluezDeviceInfo
  unfolding parse_bluez_modalias
  device_info_apply_properties info props = record info {
    address = or_old_string props.address_property info.address;
    name = or_old_string props.name_property info.name;
    connected = or_old props.connected_property info.connected;
    paired = or_old props.paired_property info.paired;
    vendor_id = (modalias_ids props.modalias_property info).0;
    product_id = (modalias_ids props.modalias_property info).1;
  }

  unfoldable pub device_info_from_properties : Bytes → DeviceProperties → BluezDeviceInfo
  unfolding device_info_apply_properties
  device_info_from_properties object_path props =
      device_info_apply_properties
        (record {
          address = none;
          name = none;
          object_path = some object_path;
          connected = false;
          paired = false;
          vendor_id = 0;
          product_id = 0;
        })
        props

abbrev pub or_source : CString → CString → CString
or_source none source = source
or_source (some text) source = some text

abbrev pub nonzero_or : ℕ → ℕ → ℕ
nonzero_or id source = if (id == 0) && not (source == 0) then source else id

unfoldable pub fill_missing_device_identity :
    BluezDeviceInfo → Option BluezDeviceInfo → BluezDeviceInfo
fill_missing_device_identity destination none = destination
fill_missing_device_identity destination (some source) = record destination {
  address = or_source destination.address source.address;
  name = or_source destination.name source.name;
  object_path = or_source destination.object_path source.object_path;
  vendor_id = nonzero_or destination.vendor_id source.vendor_id;
  product_id = nonzero_or destination.product_id source.product_id;
  paired = destination.paired || source.paired;
}

-- `g_hash_table_lookup`
abbrev pub lookup : List (Bytes × BluezDeviceInfo) → Bytes → Option BluezDeviceInfo
lookup [] path = none
lookup ((key, info) ∷ entries) path =
    let rest = lookup entries path in if bytes_equal key path then some info else rest

abbrev pub richest : Option BluezDeviceInfo → Option BluezDeviceInfo → Option BluezDeviceInfo
richest none none = none
richest none (some paired) =
    some (fill_missing_device_identity (fill_missing_device_identity paired none) (some paired))
richest (some known) paired =
    let filled =
      fill_missing_device_identity (fill_missing_device_identity known (some known)) paired in
    some (record filled { connected = known.connected })

unfoldable pub copy_richest_cached_device : DeviceCache → Bytes → Option BluezDeviceInfo
unfolding fill_missing_device_identity
copy_richest_cached_device cache object_path =
    richest (lookup cache.known_devices object_path) (lookup cache.paired_devices object_path)

-- `g_ascii_strcasecmp(text, selector) == 0`, and `g_strcmp0`, for a text that is not NULL
abbrev pub same_ignoring_case : CString → Bytes → Bool
same_ignoring_case none selector = false
same_ignoring_case (some text) selector = bytes_equal (map lower text) (map lower selector)

abbrev pub same_path : CString → Bytes → Bool
same_path none selector = false
same_path (some text) selector = bytes_equal text selector

unfoldable pub selector_matches_device : BluezDeviceInfo → Bytes → Bool
selector_matches_device info selector =
    same_ignoring_case info.address selector || same_path info.object_path selector

-- the path of the first entry that the loop stops at
unfoldable pub first_match : List (Bytes × BluezDeviceInfo) → Bytes → Bool → Option Bytes
unfolding selector_matches_device
first_match [] selector require_connected = none
first_match ((path, info) ∷ entries) selector require_connected =
    let rest = first_match entries selector require_connected in
    if (not require_connected || info.connected) && selector_matches_device info selector
    then some path
    else rest

abbrev pub or_path : Option Bytes → Option Bytes → Option Bytes
or_path none second = second
or_path (some path) second = some path

abbrev pub copy_found : DeviceCache → Option Bytes → Option BluezDeviceInfo
copy_found cache none = none
copy_found cache (some path) = copy_richest_cached_device cache path

unfoldable pub find_cached_target : DeviceCache → Bytes → Bool → Option BluezDeviceInfo
unfolding first_match copy_richest_cached_device
find_cached_target cache selector require_connected = copy_found cache (
    or_path (first_match cache.known_devices selector require_connected)
      (first_match cache.paired_devices selector require_connected))
