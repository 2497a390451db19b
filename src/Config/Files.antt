-- ===== src/Config/Files.antt =====
-- The settings: defaults, loading, saving, and the migration of the former directory.
use earport_handoff.Base.{Bool, true, false, not, ◌&&◌, ◌||◌, Option, none, some, if◌then◌else◌}
use earport_handoff.Base.Int.{ℤ, pos, ltb_ℤ}
use earport_handoff.Base.Text.{Bytes, codes}
use earport_handoff.Config.KeyFile.{KeyFiles}

pub record EarPortConfig : Type 0 where
  pub ear_pause_mode : ℤ
  pub handoff_enabled : Bool
  pub auto_connect_on_wear : Bool
  pub disconnect_on_removal : Bool

unfoldable pub config_get_defaults : EarPortConfig
config_get_defaults = record {
  ear_pause_mode = pos 2;
  handoff_enabled = true;
  auto_connect_on_wear = true;
  disconnect_on_removal = true;
}

-- `CONFIG_GROUP`
abbrev pub config_group : Bytes
config_group = codes "Settings"

-- the outcomes of the calls of the file system
pub record Outcomes : Type 0 where
  pub migration_directory_ready : Bool
  pub settings_moved : Bool
  pub devices_moved : Bool
  pub directory_ready : Bool
  pub saved : Bool

-- what `g_key_file_load_from_file` finds: no file, a file that is malformed or cannot be read, or a
-- key file
pub data Contents (F : Type 0) : Type 0 where
  missing unreadable : Contents F
  holds : F → Contents F

abbrev pub is_missing : {F : Type 0} → Contents F → Bool
is_missing missing = true
is_missing _ = false

-- a legacy file that exists is moved where nothing stands; whether the move fails otherwise is an
-- input
abbrev pub move_file : {F : Type 0} → Bool → Contents F → Contents F → Contents F × Contents F
move_file moved source destination =
    if not (is_missing source) && is_missing destination && moved
    then (missing, source)
    else (source, destination)

-- the range test of a mode that is read
abbrev pub valid_mode : ℤ → ℤ
valid_mode mode = if ltb_ℤ mode (pos 0) || ltb_ℤ (pos 2) mode then pos 2 else mode

module _ (K : KeyFiles) where
  -- the files, those of the former directory, and whether the migration was tried
  pub record Disk : Type 0 where
    pub settings : Contents K.File
    pub devices : Contents K.File
    pub legacy_is_dir : Bool
    pub legacy_settings : Contents K.File
    pub legacy_devices : Contents K.File
    pub migration_checked : Bool

  -- The removal of the old directory is not modelled: nothing looks for it again.
  unfoldable pub migrate_legacy_config_dir : Outcomes → Disk → Disk
  migrate_legacy_config_dir o disk =
      let settings = move_file o.settings_moved disk.legacy_settings disk.settings in
      let devices = move_file o.devices_moved disk.legacy_devices disk.devices in
      if disk.migration_checked
      then disk
      else if disk.legacy_is_dir && o.migration_directory_ready
      then record disk {
        migration_checked = true;
        legacy_settings = settings.0;
        settings = settings.1;
        legacy_devices = devices.0;
        devices = devices.1;
      }
      else record disk { migration_checked = true }

  -- `g_key_file_has_key` and then a getter
  abbrev pub boolean_or : Bool → Option Bytes → Bool
  boolean_or default none = default
  boolean_or default (some value) = K.read_boolean value

  abbrev pub mode_or : ℤ → Option Bytes → ℤ
  mode_or default none = default
  mode_or default (some value) = valid_mode (K.read_integer value)

  unfoldable pub read_settings : K.File → EarPortConfig
  unfolding config_get_defaults
  read_settings f = record {
    ear_pause_mode =
        mode_or config_get_defaults.ear_pause_mode
          (K.lookup f config_group (codes "ear_pause_mode"));
    handoff_enabled =
        boolean_or config_get_defaults.handoff_enabled
          (K.lookup f config_group (codes "handoff_enabled"));
    auto_connect_on_wear =
        boolean_or config_get_defaults.auto_connect_on_wear
          (K.lookup f config_group (codes "auto_connect_on_wear"));
    disconnect_on_removal =
        boolean_or config_get_defaults.disconnect_on_removal
          (K.lookup f config_group (codes "disconnect_on_removal"));
  }

  unfoldable pub settings_file : EarPortConfig → K.File
  settings_file config =
      let f1 =
        K.set_value K.new config_group (codes "ear_pause_mode")
          (K.integer_value config.ear_pause_mode) in
      let f2 =
        K.set_value f1 config_group (codes "handoff_enabled")
          (K.boolean_value config.handoff_enabled) in
      let f3 =
        K.set_value f2 config_group (codes "auto_connect_on_wear")
          (K.boolean_value config.auto_connect_on_wear) in
      let f4 =
        K.set_value f3 config_group (codes "disconnect_on_removal")
          (K.boolean_value config.disconnect_on_removal) in
      K.set_comment f4 config_group

  unfoldable pub config_save : Outcomes → Disk → EarPortConfig → Disk × Bool
  unfolding settings_file
  config_save o disk config =
      if not o.directory_ready
      then (disk, false)
      else if o.saved
      then (record disk { settings = holds (settings_file config) }, true)
      else (disk, false)

  -- the part after the migration
  abbrev pub load_settings : Outcomes → Disk → Contents K.File → Disk × EarPortConfig × Bool
  load_settings o disk missing =
      let (written, successful) = config_save o disk config_get_defaults in
      (written, config_get_defaults, successful)
  load_settings o disk unreadable = (disk, config_get_defaults, false)
  load_settings o disk (holds f) = (disk, read_settings f, true)

  unfoldable pub config_load : Outcomes → Disk → Disk × EarPortConfig × Bool
  unfolding migrate_legacy_config_dir config_save read_settings config_get_defaults
  config_load o disk =
      let migrated = migrate_legacy_config_dir o disk in load_settings o migrated migrated.settings
