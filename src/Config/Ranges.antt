-- ===== src/Config/Ranges.antt =====
-- What is loaded is in range, whatever the files hold.
use earport_handoff.Base.{◌<◌, inl, inr, Option, none, some, [], ◌∷◌, arith, length, Bool-cases}
use earport_handoff.Base.Int.{ℤ, pos, negsuc, ◌≤ℤ◌}
use earport_handoff.Base.Text.{Bytes, CString, codes}
use earport_handoff.Config.KeyFile.{KeyFiles, Utf8, Utf8Laws, IsUtf8}
use earport_handoff.Config.{
  Outcomes, Contents, missing, unreadable, holds, Disk, config_group, config_get_defaults,
  migrate_legacy_config_dir, read_settings, config_load, load_settings, mode_or, valid_mode,
  config_get_default_profile, device_profile_display_name_size, DeviceProfile, read_profile,
  name_or, string_or, level_or, valid_level, address_to_group, config_load_device_profile,
  load_profile,
}
use earport_handoff.Config.Names.{copy-IsUtf8, copy-lt}

valid_mode-range : (m : ℤ) → (pos 0 ≤ℤ valid_mode m) × (valid_mode m ≤ℤ pos 2)
valid_mode-range (pos n) = (ground arith, ground arith)
valid_mode-range (negsuc n) = (ground arith, ground arith)

valid_level-range : (m : ℤ) → (pos 0 ≤ℤ valid_level m) × (valid_level m ≤ℤ pos 100)
valid_level-range (pos n) = (ground arith, ground arith)
valid_level-range (negsuc n) = (ground arith, ground arith)

abbrev pub IsInRange : Utf8 → DeviceProfile → Type 0
IsInRange U p =
    (pos 0 ≤ℤ p.adaptive_noise_level)
    × (p.adaptive_noise_level ≤ℤ pos 100)
    × IsUtf8 U p.display_name
    × (length p.display_name < device_profile_display_name_size)

module _ (K : KeyFiles) (U : Utf8) (laws : Utf8Laws U) where
  mode_or-range :
      (v : Option Bytes) → (pos 0 ≤ℤ mode_or K (pos 2) v) × (mode_or K (pos 2) v ≤ℤ pos 2)
  mode_or-range none = (omega arith, omega arith)
  mode_or-range (some v) = valid_mode-range (K.read_integer v)

  load_settings-range :
      (o : Outcomes) (disk : Disk K) (files : Contents K.File)
      → let c = (load_settings K o disk files).1 in
        (pos 0 ≤ℤ c.ear_pause_mode) × (c.ear_pause_mode ≤ℤ pos 2)
  unfolding config_get_defaults read_settings
  load_settings-range o disk missing = (omega arith, omega arith)
  load_settings-range o disk unreadable = (omega arith, omega arith)
  load_settings-range o disk (holds f) =
      mode_or-range (K.lookup f config_group (codes "ear_pause_mode"))

  level_or-range :
      (v : Option Bytes) → (pos 0 ≤ℤ level_or K U (pos 50) v) × (level_or K U (pos 50) v ≤ℤ pos 100)
  level_or-range none = (omega arith, omega arith)
  level_or-range (some v) = valid_level-range (K.read_integer v)

  name-range : (s : CString) → IsUtf8 U (string_or K U [] s) × (length (string_or K U [] s) < 64)
  name-range none = (omega (arith, laws.valid_length-le []), omega arith)
  name-range (some s) = (copy-IsUtf8 U laws (some s), copy-lt U laws (some s))

  name_or-range :
      (v : Option Bytes) → IsUtf8 U (name_or K U [] v) × (length (name_or K U [] v) < 64)
  name_or-range none = (omega (arith, laws.valid_length-le []), omega arith)
  name_or-range (some v) = name-range (K.read_string v)

  default-IsInRange : IsInRange U config_get_default_profile
  unfolding config_get_default_profile
  default-IsInRange =
      (omega arith, omega arith, omega (arith, laws.valid_length-le []), omega arith)

  read_profile-IsInRange : (f : K.File) (g : Bytes) → IsInRange U (read_profile K U f g)
  unfolding read_profile config_get_default_profile
  read_profile-IsInRange f g =
      let level = level_or-range (K.lookup f g (codes "adaptive_noise_level")) in
      let name = name_or-range (K.lookup f g (codes "display_name")) in
      (level.0, level.1, name.0, name.1)

  load_profile-IsInRange :
      (files : Contents K.File) (g : Bytes) → IsInRange U (load_profile K U files g).0
  load_profile-IsInRange missing g = default-IsInRange
  load_profile-IsInRange unreadable g = default-IsInRange
  load_profile-IsInRange (holds f) g = elim (Bool-cases (K.has_group f g)) [
    | inl e ↦ rw e (read_profile-IsInRange f g)
    | inr e ↦ rw e default-IsInRange
  ]

  load_device_profile-IsInRange :
      (disk : Disk K) (address : CString)
      → IsInRange U (config_load_device_profile K U disk address).0
  unfolding config_load_device_profile
  load_device_profile-IsInRange disk none = default-IsInRange
  load_device_profile-IsInRange disk (some []) = default-IsInRange
  load_device_profile-IsInRange disk (some (c ∷ cs)) =
      load_profile-IsInRange disk.devices (address_to_group (c ∷ cs))

  -- Whatever the files hold and the file system answers, the settings that are loaded have a mode from
  -- 0 to 2, and every profile that is loaded has a level from 0 to 100 and a name that is valid UTF-8
  -- and fits its field with its NUL.
  pub loaded-IsInRange :
      (o : Outcomes) (disk : Disk K) (address : CString)
      → let mode = (config_load K o disk).1.ear_pause_mode in
        (pos 0 ≤ℤ mode)
        × (mode ≤ℤ pos 2)
        × IsInRange U (config_load_device_profile K U disk address).0
  unfolding config_load
  loaded-IsInRange o disk address =
      let migrated = migrate_legacy_config_dir K o disk in
      let mode = load_settings-range o migrated migrated.settings in
      (mode.0, mode.1, load_device_profile-IsInRange disk address)
