-- ===== src/Monitor/Targets.antt =====
-- The device that a worn advertisement connects: `find_unique_paired_target` of
-- daemon/src/bluez_monitor.c. The devices are those that an iteration over the paired ones visits,
-- in its order, and membership in the tables of calls in flight is a parameter.
use earport_handoff.Base.{
  ℕ, ◌+◌, ◌%◌, ◌^◌, ◌<◌, ◌≡◌, refl, sym, ap, ◌∙◌, ◌↔◌, inl, inr, Bool, true, false, not, ◌||◌,
  Option, none, some, List, [], ◌∷◌, arith, length, ◌==◌, if◌then◌else◌, Bool-cases,
}
use earport_handoff.Base.Text.{CString}
use earport_handoff.Ble.{ble_airpods_bluez_product_id}

pub record BluezDeviceInfo : Type 0 where
  pub address : CString
  pub name : CString
  pub object_path : CString
  pub connected : Bool
  pub paired : Bool
  pub vendor_id : ℕ
  pub product_id : ℕ

abbrev pub apple_company_id : ℕ
apple_company_id = 0x004c

-- the target so far, and the count
pub record Search : Type 0 where
  pub target : Option BluezDeviceInfo
  pub matches : ℕ

abbrev pub or_first : Option BluezDeviceInfo → BluezDeviceInfo → Option BluezDeviceInfo
or_first none info = some info
or_first (some target) info = some target

-- `count++`, and the copy of the first one
abbrev pub count_match : Search → BluezDeviceInfo → Search
count_match so_far info = record {
  target = or_first so_far.target info;
  matches = (so_far.matches + 1) % 2 ^ 32;
}

module _ (connect_in_flight disconnect_in_flight : CString → Bool) where
  -- the test that the loop skips a device by
  unfoldable pub is_skipped : ℕ → BluezDeviceInfo → Bool
  is_skipped expected_product info =
      not info.paired
      || info.connected
      || not (info.vendor_id == apple_company_id)
      || not (info.product_id == expected_product)
      || connect_in_flight info.object_path
      || disconnect_in_flight info.object_path

  -- the `while` loop
  unfoldable pub search_devices : ℕ → List BluezDeviceInfo → Search → Search
  search_devices expected_product [] so_far = so_far
  search_devices expected_product (info ∷ rest) so_far =
      let next = if is_skipped expected_product info then so_far else count_match so_far info in
      search_devices expected_product rest next

  -- the target, and the count that is written to `match_count`
  unfoldable pub find_unique_paired_target : List BluezDeviceInfo → ℕ → Option BluezDeviceInfo × ℕ
  unfolding search_devices
  find_unique_paired_target devices ble_model =
      let found =
        search_devices (ble_airpods_bluez_product_id ble_model) devices
          (record { target = none; matches = 0 }) in
      (if not (found.matches == 1) then none else found.target, found.matches)

  -- the devices that are not skipped
  abbrev pub candidates : ℕ → List BluezDeviceInfo → List BluezDeviceInfo
  candidates expected_product [] = []
  candidates expected_product (info ∷ rest) =
      let later = candidates expected_product rest in
      if is_skipped expected_product info then later else info ∷ later

  abbrev first_of : Option BluezDeviceInfo → List BluezDeviceInfo → Option BluezDeviceInfo
  first_of (some target) infos = some target
  first_of none [] = none
  first_of none (info ∷ infos) = some info

  first_of-or_first :
      (t : Option BluezDeviceInfo) (info : BluezDeviceInfo) (infos : List BluezDeviceInfo)
      → first_of (or_first t info) infos ≡ first_of t (info ∷ infos)
  first_of-or_first none info infos = refl
  first_of-or_first (some t) info infos = refl

  search-step :
      (product : ℕ) (info : BluezDeviceInfo) (rest : List BluezDeviceInfo) (s : Search) (b : Bool)
      → is_skipped product info ≡ b
      → search_devices product (info ∷ rest) s
        ≡ search_devices product rest (if b then s else count_match s info)
  unfolding search_devices
  search-step product info rest s b h =
      ap (λ c. search_devices product rest (if c then s else count_match s info)) h

  first_of-nil : (t : Option BluezDeviceInfo) → first_of t [] ≡ t
  first_of-nil none = refl
  first_of-nil (some t) = refl

  search-candidates :
      (product : ℕ) (devices : List BluezDeviceInfo) (s : Search)
      → s.matches + length devices < 2 ^ 32
      → (((search_devices product devices s).target
            ≡ first_of s.target (candidates product devices))
          × ((search_devices product devices s).matches
              ≡ s.matches + length (candidates product devices)))
  unfolding search_devices
  search-candidates product [] s bound = (sym (first_of-nil s.target), omega arith)
  search-candidates product (info ∷ rest) s bound = elim (Bool-cases (is_skipped product info)) [
    | inl skipped ↦
        rw (search-step product info rest s true skipped, skipped)
          (search-candidates product rest s (omega arith))
    | inr taken ↦
        let (target, matches) = search-candidates product rest (count_match s info) (omega arith) in
        rw (search-step product info rest s false taken, taken)
          (target ∙ first_of-or_first s.target info (candidates product rest), omega arith)
  ]

  unique-first :
      (infos : List BluezDeviceInfo) (info : BluezDeviceInfo)
      → ((if not (length infos == 1) then none else first_of none infos) ≡ some info)
        ↔ (infos ≡ info ∷ [])
  unique-first [] info = (λ h. cc, λ h. cc)
  unique-first (a ∷ []) info = (λ h. cc, λ h. cc)
  unique-first (a ∷ b ∷ infos) info = (λ h. absurd (ground arith), λ h. cc)

  -- Among fewer than 2 ^ 32 devices, in any order: the target is a device exactly if that is the
  -- only one that is paired, not connected, of Apple's vendor identifier and the advertised
  -- model, and has no call in flight; and the count is the number of such devices.
  pub find_unique-candidates :
      (devices : List BluezDeviceInfo) (ble_model : ℕ) (info : BluezDeviceInfo)
      → length devices < 2 ^ 32
      → (((find_unique_paired_target devices ble_model).0 ≡ some info)
          ↔ (candidates (ble_airpods_bluez_product_id ble_model) devices ≡ info ∷ []))
        × ((find_unique_paired_target devices ble_model).1
            ≡ length (candidates (ble_airpods_bluez_product_id ble_model) devices))
  unfolding find_unique_paired_target
  find_unique-candidates devices ble_model info bound =
      let product = ble_airpods_bluez_product_id ble_model in
      let (target, matches) =
        search-candidates product devices (record { target = none; matches = 0 }) (omega arith) in
      let counted : 0 + length (candidates product devices) ≡ length (candidates product devices) =
        omega arith in
      rw (target, matches, counted) (unique-first (candidates product devices) info, refl)
