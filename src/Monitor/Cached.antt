-- ===== src/Monitor/Cached.antt =====
-- What updates and the merge of the two copies of a device keep, and what the search finds.
use earport_handoff.Base.{
  ℕ, ◌≡◌, refl, ◌∙◌, inl, inr, Bool, true, false, not, ◌&&◌, ◌||◌, Option, none, some, List, [],
  ◌∷◌, ◌==◌, arith, bytes_equal, bytes_equal_refl, Bool-cases, Option-cases, if◌then◌else◌,
}
use earport_handoff.Base.Text.{Bytes, CString}
use earport_handoff.Monitor.Targets.{BluezDeviceInfo}
use earport_handoff.Monitor.Cache.{
  DeviceProperties, DeviceCache, or_old, or_old_string, modalias_ids, device_info_apply_properties,
  fill_missing_device_identity, lookup, richest, copy_richest_cached_device,
  selector_matches_device, first_match, or_path, copy_found, find_cached_target,
}

-- the later value, where there is one
abbrev pub later : {A : Type 0} → Option A → Option A → Option A
later none first = first
later (some value) first = some value

abbrev pub both : DeviceProperties → DeviceProperties → DeviceProperties
both first second = record {
  address_property = later second.address_property first.address_property;
  name_property = later second.name_property first.name_property;
  connected_property = later second.connected_property first.connected_property;
  paired_property = later second.paired_property first.paired_property;
  modalias_property = later second.modalias_property first.modalias_property;
}

or_old-later :
    {A : Type 0} (second first : Option A) (old : A)
    → or_old second (or_old first old) ≡ or_old (later second first) old
or_old-later none first old = refl
or_old-later (some value) first old = refl

or_old_string-later :
    (second first : Option Bytes) (old : CString)
    → or_old_string second (or_old_string first old) ≡ or_old_string (later second first) old
or_old_string-later none first old = refl
or_old_string-later (some value) first old = refl

module _ (scan_modalias : Bytes → Option (ℕ × ℕ)) where
  modalias_ids-later :
      (info : BluezDeviceInfo) (first second : DeviceProperties)
      → modalias_ids scan_modalias second.modalias_property
          (device_info_apply_properties scan_modalias info first)
        ≡ modalias_ids scan_modalias (both first second).modalias_property info
  unfolding device_info_apply_properties
  modalias_ids-later info first second = elim (Option-cases second.modalias_property) [
    | inl e ↦ rw e refl
    | inr (modalias, e) ↦ rw e refl
  ]

  -- Two updates of a device one after the other are one update with the properties of both, where
  -- the later one decides a property that both have.
  pub apply-apply :
      (info : BluezDeviceInfo) (first second : DeviceProperties)
      → device_info_apply_properties scan_modalias
          (device_info_apply_properties scan_modalias info first)
          second
        ≡ device_info_apply_properties scan_modalias info (both first second)
  unfolding device_info_apply_properties
  apply-apply info first second =
      rw
        (
          or_old_string-later second.address_property first.address_property info.address,
          or_old_string-later second.name_property first.name_property info.name,
          or_old-later second.connected_property first.connected_property info.connected,
          or_old-later second.paired_property first.paired_property info.paired,
          modalias_ids-later info first second,
        )
        refl

-- whether the loop stops at one of the entries
abbrev pub has_match : List (Bytes × BluezDeviceInfo) → Bytes → Bool → Bool
unfolding selector_matches_device
has_match [] selector require_connected = false
has_match ((path, info) ∷ entries) selector require_connected =
    ((not require_connected || info.connected) && selector_matches_device info selector)
    || has_match entries selector require_connected

-- A known device's link state is that of the connected cache, and an identity that either copy has
-- is in the merge.
pub richest_merges :
    (cache : DeviceCache) (path : Bytes) (known paired : BluezDeviceInfo)
    → lookup cache.known_devices path ≡ some known
    → lookup cache.paired_devices path ≡ some paired
    → (info : BluezDeviceInfo) × (copy_richest_cached_device cache path ≡ some info)
      × (info.connected ≡ known.connected)
      × (info.paired ≡ (known.paired || paired.paired))
      × (info.product_id ≡ (if known.product_id == 0 then paired.product_id else known.product_id))
unfolding copy_richest_cached_device fill_missing_device_identity
richest_merges cache path known paired h h' = rw (h, h') (_, refl, refl, ground arith, ground arith)

abbrev pub is_some : {A : Type 0} → Option A → Bool
is_some none = false
is_some (some value) = true

-- the path is one of the table
abbrev IsMatch : List (Bytes × BluezDeviceInfo) → Option Bytes → Type 0
IsMatch entries none = Unit
IsMatch entries (some path) = is_some (lookup entries path) ≡ true

lookup-head :
    (path : Bytes) (info : BluezDeviceInfo) (entries : List (Bytes × BluezDeviceInfo))
    → is_some (lookup ((path, info) ∷ entries) path) ≡ true
lookup-head path info entries = rw (bytes_equal_refl path) refl

lookup-tail :
    (key : Bytes) (info : BluezDeviceInfo) (entries : List (Bytes × BluezDeviceInfo))
    (found : Option Bytes)
    → IsMatch entries found
    → IsMatch ((key, info) ∷ entries) found
lookup-tail key info entries none v = tt
lookup-tail key info entries (some path) v = elim (Bool-cases (bytes_equal key path)) [
  | inl same ↦ rw same refl
  | inr other ↦ rw other v
]

first_match-IsMatch :
    (entries : List (Bytes × BluezDeviceInfo)) (selector : Bytes) (require_connected : Bool)
    → IsMatch entries (first_match entries selector require_connected)
      × (is_some (first_match entries selector require_connected)
          ≡ has_match entries selector require_connected)
unfolding first_match
first_match-IsMatch [] selector require_connected = (tt, refl)
first_match-IsMatch ((path, info) ∷ entries) selector require_connected =
    let (found, same) = first_match-IsMatch entries selector require_connected in
    elim (Bool-cases
      ((not require_connected || info.connected) && selector_matches_device info selector)) [
        | inl hit ↦ rw hit (lookup-head path info entries, refl)
        | inr miss ↦ rw miss (lookup-tail path info entries _ found, same)
      ]

richest-is_some :
    (known paired : Option BluezDeviceInfo)
    → is_some (richest known paired) ≡ (is_some known || is_some paired)
richest-is_some none none = refl
richest-is_some none (some paired) = refl
richest-is_some (some known) paired = refl

copy_found-is_some :
    (cache : DeviceCache) (first second : Option Bytes)
    → IsMatch cache.known_devices first
    → IsMatch cache.paired_devices second
    → is_some (copy_found cache (or_path first second)) ≡ (is_some first || is_some second)
unfolding copy_richest_cached_device
copy_found-is_some cache none none v w = refl
copy_found-is_some cache none (some path) v w =
    rw (richest-is_some (lookup cache.known_devices path) (lookup cache.paired_devices path))
      (ground (arith, w))
copy_found-is_some cache (some path) second v w =
    rw (richest-is_some (lookup cache.known_devices path) (lookup cache.paired_devices path))
      (ground (arith, v))

-- A selector finds a device exactly if it matches one in either cache that is connected, where that
-- is required.
pub find_cached_target_iff :
    (cache : DeviceCache) (selector : Bytes) (require_connected : Bool)
    → is_some (find_cached_target cache selector require_connected) ≡ (
        has_match cache.known_devices selector require_connected
        || has_match cache.paired_devices selector require_connected)
unfolding find_cached_target
find_cached_target_iff cache selector require_connected =
    let (in_known, known) = first_match-IsMatch cache.known_devices selector require_connected in
    let (in_paired, paired) = first_match-IsMatch cache.paired_devices selector require_connected in
    copy_found-is_some cache _ _ in_known in_paired ∙ rw (known, paired) refl
