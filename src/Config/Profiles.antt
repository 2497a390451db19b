-- ===== src/Config/Profiles.antt =====
-- The profiles of devices: names, loading and saving.
use earport_handoff.Base.{
  ℕ, ◌-◌, min, Bool, true, false, not, ◌&&◌, Option, none, some, [], ◌∷◌, ◌==◌, ltb, length, take,
  map, if◌then◌else◌,
}
use earport_handoff.Base.Int.{ℤ, pos, ltb_ℤ}
use earport_handoff.Base.Text.{Bytes, CString, codes}
use earport_handoff.State.{ListeningModesConfig, clamp_percent}
use earport_handoff.Config.KeyFile.{KeyFiles, Utf8}
use earport_handoff.Config.Files.{Outcomes, Contents, missing, unreadable, holds, Disk, boolean_or}

-- `display_name` is the text before its NUL.
pub record DeviceProfile : Type 0 where
  pub display_name : Bytes
  pub listening_modes : ListeningModesConfig
  pub conversational_awareness : Bool
  pub adaptive_noise_level : ℤ
  pub has_saved_settings : Bool

abbrev pub device_profile_display_name_size : ℕ
device_profile_display_name_size = 64

-- ':' becomes '_'
abbrev pub group_byte : ℕ → ℕ
group_byte c = if c == b':' then b'_' else c

abbrev pub address_to_group : Bytes → Bytes
address_to_group address = map group_byte address

unfoldable pub config_get_default_profile : DeviceProfile
config_get_default_profile = record {
  display_name = [];
  listening_modes = record {
    off_enabled = false;
    transparency_enabled = true;
    anc_enabled = true;
    adaptive_enabled = false;
  };
  conversational_awareness = false;
  adaptive_noise_level = pos 50;
  has_saved_settings = false;
}

-- the bytes copied of a valid text
unfoldable pub copy_valid : Utf8 → Bytes → Bytes
copy_valid U valid =
    let copy_len = min (length valid) (device_profile_display_name_size - 1) in
    let cut = take copy_len valid in
    if ltb copy_len (length valid) && not (U.valid_length cut == copy_len)
    then take (U.valid_length cut) valid
    else cut

unfoldable pub config_copy_display_name : Utf8 → CString → Bytes
unfolding copy_valid
config_copy_display_name U none = []
config_copy_display_name U (some []) = []
config_copy_display_name U (some (c ∷ cs)) = copy_valid U (U.make_valid (c ∷ cs))

-- the range test of a level that is read
abbrev pub valid_level : ℤ → ℤ
valid_level level =
    if ltb_ℤ level (pos 0) then pos 0 else if ltb_ℤ (pos 100) level then pos 100 else level

module _ (K : KeyFiles) (U : Utf8) where
  -- the name is not replaced where the value is not a string
  abbrev pub string_or : Bytes → CString → Bytes
  string_or default none = default
  string_or default (some name) = config_copy_display_name U (some name)

  abbrev pub name_or : Bytes → Option Bytes → Bytes
  name_or default none = default
  name_or default (some value) = string_or default (K.read_string value)

  abbrev pub level_or : ℤ → Option Bytes → ℤ
  level_or default none = default
  level_or default (some value) = valid_level (K.read_integer value)

  unfoldable pub read_profile : K.File → Bytes → DeviceProfile
  unfolding config_copy_display_name config_get_default_profile
  read_profile f group =
      let defaults = config_get_default_profile in
      let modes = defaults.listening_modes in
      record {
        display_name = name_or defaults.display_name (K.lookup f group (codes "display_name"));
        listening_modes = record {
          off_enabled =
              boolean_or K modes.off_enabled (K.lookup f group (codes "listening_mode_off"));
          transparency_enabled =
              boolean_or K modes.transparency_enabled
                (K.lookup f group (codes "listening_mode_transparency"));
          anc_enabled =
              boolean_or K modes.anc_enabled (K.lookup f group (codes "listening_mode_anc"));
          adaptive_enabled =
              boolean_or K modes.adaptive_enabled
                (K.lookup f group (codes "listening_mode_adaptive"));
        };
        conversational_awareness =
            boolean_or K defaults.conversational_awareness
              (K.lookup f group (codes "conversational_awareness"));
        adaptive_noise_level =
            level_or defaults.adaptive_noise_level
              (K.lookup f group (codes "adaptive_noise_level"));
        has_saved_settings =
            boolean_or K defaults.has_saved_settings
              (K.lookup f group (codes "has_saved_settings"));
      }

  -- with a file that holds no such group, or no key file
  abbrev pub load_profile : Contents K.File → Bytes → DeviceProfile × Bool
  load_profile missing group = (config_get_default_profile, false)
  load_profile unreadable group = (config_get_default_profile, false)
  load_profile (holds f) group =
      if K.has_group f group
      then (read_profile f group, true)
      else (config_get_default_profile, false)

  unfoldable pub config_load_device_profile : Disk K → CString → DeviceProfile × Bool
  unfolding read_profile config_get_default_profile
  config_load_device_profile disk none = (config_get_default_profile, false)
  config_load_device_profile disk (some []) = (config_get_default_profile, false)
  config_load_device_profile disk (some (c ∷ cs)) =
      load_profile disk.devices (address_to_group (c ∷ cs))

  -- the name as it is saved
  abbrev pub saved_name : DeviceProfile → Bytes
  saved_name profile =
      config_copy_display_name U
        (some (take (device_profile_display_name_size - 1) profile.display_name))

  -- the eight keys of a profile, in the order in which they are set
  unfoldable pub write_profile : K.File → Bytes → DeviceProfile → K.File
  unfolding config_copy_display_name
  write_profile f group profile =
      let modes = profile.listening_modes in
      let f1 = K.set_value f group (codes "display_name") (K.string_value (saved_name profile)) in
      let f2 =
        K.set_value f1 group (codes "listening_mode_off") (K.boolean_value modes.off_enabled) in
      let f3 =
        K.set_value f2 group (codes "listening_mode_transparency")
          (K.boolean_value modes.transparency_enabled) in
      let f4 =
        K.set_value f3 group (codes "listening_mode_anc") (K.boolean_value modes.anc_enabled) in
      let f5 =
        K.set_value f4 group (codes "listening_mode_adaptive")
          (K.boolean_value modes.adaptive_enabled) in
      let f6 =
        K.set_value f5 group (codes "conversational_awareness")
          (K.boolean_value profile.conversational_awareness) in
      let f7 =
        K.set_value f6 group (codes "adaptive_noise_level")
          (K.integer_value (clamp_percent profile.adaptive_noise_level)) in
      K.set_value f7 group (codes "has_saved_settings") (K.boolean_value true)

  -- the key file to update, none where the file is refused
  unfoldable pub load_existing_key_file_for_update : Contents K.File → Option K.File
  load_existing_key_file_for_update missing = some K.new
  load_existing_key_file_for_update unreadable = none
  load_existing_key_file_for_update (holds f) = some f

  -- the end of a save
  abbrev pub save_profile :
      Outcomes → Disk K → Bytes → DeviceProfile → Option K.File → Disk K × Bool
  save_profile o disk group profile none = (disk, false)
  save_profile o disk group profile (some f) =
      if o.saved
      then (record disk { devices = holds (write_profile f group profile) }, true)
      else (disk, false)

  unfoldable pub config_save_device_profile :
      Outcomes → Disk K → CString → DeviceProfile → Disk K × Bool
  unfolding load_existing_key_file_for_update write_profile
  config_save_device_profile o disk none profile = (disk, false)
  config_save_device_profile o disk (some []) profile = (disk, false)
  config_save_device_profile o disk (some (c ∷ cs)) profile =
      let saved =
        save_profile o disk (address_to_group (c ∷ cs)) profile
          (load_existing_key_file_for_update disk.devices) in
      if not o.directory_ready then (disk, false) else saved
