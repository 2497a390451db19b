-- ===== src/Config/Kept.antt =====
-- Files that stand in the way of a migration or cannot be read, when others are loaded and saved.
use earport_handoff.Base.{
  ◌≡◌, refl, ap, ◌∙◌, inl, inr, Bool, true, false, not, ◌&&◌, Option, none, some, [], ◌∷◌,
  if◌then◌else◌, Bool-cases,
}
use earport_handoff.Base.Text.{Bytes, CString}
use earport_handoff.Config.KeyFile.{KeyFiles, Utf8}
use earport_handoff.Config.{
  EarPortConfig, config_save, Outcomes, Contents, missing, unreadable, holds, Disk,
  config_get_defaults, migrate_legacy_config_dir, move_file, is_missing, read_settings, config_load,
  load_settings, DeviceProfile, address_to_group, config_save_device_profile, save_profile,
  load_existing_key_file_for_update,
}

move-kept :
    {F : Type 0} (moved : Bool) (source destination : Contents F)
    → is_missing destination ≡ false
    → (move_file moved source destination).1 ≡ destination
move-kept moved source destination h =
    rw h (elim (Bool-cases (not (is_missing source))) [ inl e ↦ rw e refl | inr e ↦ rw e refl ])

-- what holds of both branches
if-both : {A : Type 0} (Q : A → Type 0) (b : Bool) (x y : A) → Q x → Q y → Q (if b then x else y)
if-both Q true x y p q = p
if-both Q false x y p q = q

module _ (K : KeyFiles) where
  pub migrate-kept :
      (o : Outcomes) (disk : Disk K)
      → (is_missing disk.settings ≡ false
          → (migrate_legacy_config_dir K o disk).settings ≡ disk.settings)
        × (is_missing disk.devices ≡ false
            → (migrate_legacy_config_dir K o disk).devices ≡ disk.devices)
  unfolding migrate_legacy_config_dir
  migrate-kept o disk = (
    λ h.
        if-both (λ (d : Disk K). d.settings ≡ disk.settings) disk.migration_checked _ _ refl
          (if-both (λ (d : Disk K). d.settings ≡ disk.settings)
            (disk.legacy_is_dir && o.migration_directory_ready) _ _
            (move-kept o.settings_moved disk.legacy_settings disk.settings h) refl),
    λ h.
        if-both (λ (d : Disk K). d.devices ≡ disk.devices) disk.migration_checked _ _ refl
          (if-both (λ (d : Disk K). d.devices ≡ disk.devices)
            (disk.legacy_is_dir && o.migration_directory_ready) _ _
            (move-kept o.devices_moved disk.legacy_devices disk.devices h) refl),
  )

  pub load-holds :
      (o : Outcomes) (disk : Disk K) (f : K.File)
      → disk.settings ≡ holds f
      → config_load K o disk ≡ (migrate_legacy_config_dir K o disk, read_settings K f, true)
  unfolding config_load
  load-holds o disk f h =
      ap (load_settings K o (migrate_legacy_config_dir K o disk))
        ((migrate-kept o disk).0 (ap is_missing h) ∙ h)

  load-unreadable :
      (o : Outcomes) (disk : Disk K)
      → disk.settings ≡ unreadable
      → config_load K o disk ≡ (migrate_legacy_config_dir K o disk, config_get_defaults, false)
  unfolding config_load
  load-unreadable o disk h =
      ap (load_settings K o (migrate_legacy_config_dir K o disk))
        ((migrate-kept o disk).0 (ap is_missing h) ∙ h)

  refuse-unreadable :
      (U : Utf8) (o : Outcomes) (disk : Disk K) (address : CString) (profile : DeviceProfile)
      → disk.devices ≡ unreadable
      → config_save_device_profile K U o disk address profile ≡ (disk, false)
  unfolding config_save_device_profile load_existing_key_file_for_update
  refuse-unreadable U o disk none profile h = refl
  refuse-unreadable U o disk (some []) profile h = refl
  refuse-unreadable U o disk (some (c ∷ cs)) profile h =
      let group = address_to_group (c ∷ cs) in
      let refused =
        ap (λ d. save_profile K U o disk group profile (load_existing_key_file_for_update K U d))
          h in
      if-both (λ r. r ≡ (disk, false)) (not o.directory_ready) _ _ refl refused

  save_profile-settings :
      (U : Utf8) (o : Outcomes) (disk : Disk K) (group : Bytes) (profile : DeviceProfile)
      (old : Option K.File)
      → (save_profile K U o disk group profile old).0.settings ≡ disk.settings
  save_profile-settings U o disk group profile none = refl
  save_profile-settings U o disk group profile (some f) =
      if-both (λ (r : Disk K × Bool). r.0.settings ≡ disk.settings) o.saved _ _ refl refl

  save-devices :
      (o : Outcomes) (disk : Disk K) (config : EarPortConfig)
      → (config_save K o disk config).0.devices ≡ disk.devices
  unfolding config_save
  save-devices o disk config =
      if-both (λ (r : Disk K × Bool). r.0.devices ≡ disk.devices) (not o.directory_ready) _ _ refl
        (if-both (λ (r : Disk K × Bool). r.0.devices ≡ disk.devices) o.saved _ _ refl refl)

  load_settings-devices :
      (o : Outcomes) (disk : Disk K) (settings : Contents K.File)
      → (load_settings K o disk settings).0.devices ≡ disk.devices
  load_settings-devices o disk missing = save-devices o disk config_get_defaults
  load_settings-devices o disk unreadable = refl
  load_settings-devices o disk (holds f) = refl

  load-devices :
      (o : Outcomes) (disk : Disk K)
      → (config_load K o disk).0.devices ≡ (migrate_legacy_config_dir K o disk).devices
  unfolding config_load
  load-devices o disk =
      let migrated = migrate_legacy_config_dir K o disk in
      load_settings-devices o migrated migrated.settings

  profile-settings :
      (U : Utf8) (o : Outcomes) (disk : Disk K) (address : CString) (profile : DeviceProfile)
      → (config_save_device_profile K U o disk address profile).0.settings ≡ disk.settings
  unfolding config_save_device_profile
  profile-settings U o disk none profile = refl
  profile-settings U o disk (some []) profile = refl
  profile-settings U o disk (some (c ∷ cs)) profile =
      if-both (λ (r : Disk K × Bool). r.0.settings ≡ disk.settings) (not o.directory_ready) _ _ refl
        (save_profile-settings U o disk (address_to_group (c ∷ cs)) profile
          (load_existing_key_file_for_update K U disk.devices))

  -- Where the settings cannot be read, loading them fails with the defaults and leaves the file as it
  -- is, migration included, and saving any profile then leaves it too: whatever the devices file
  -- holds, and whatever the file system answers.
  pub unreadable_settings_kept :
      (U : Utf8) (o o' : Outcomes) (disk : Disk K) (address : CString) (profile : DeviceProfile)
      → disk.settings ≡ unreadable
      → let loaded = config_load K o disk in
        (loaded.1 ≡ config_get_defaults)
        × (loaded.2 ≡ false)
        × (loaded.0.settings ≡ unreadable)
        × ((config_save_device_profile K U o' loaded.0 address profile).0.settings ≡ unreadable)
  unreadable_settings_kept U o o' disk address profile h =
      let migrated = migrate_legacy_config_dir K o disk in
      let settings = (migrate-kept o disk).0 (ap is_missing h) ∙ h in
      rw (load-unreadable o disk h)
        (refl, refl, settings, profile-settings U o' migrated address profile ∙ settings)

  -- Where the devices file cannot be read, loading and then saving any settings leaves it as it is,
  -- migration included, and saving any profile then fails and changes nothing: whatever the settings
  -- file holds, and whatever the file system answers.
  pub unreadable_devices_kept :
      (U : Utf8) (o o' o'' : Outcomes) (disk : Disk K) (config : EarPortConfig) (address : CString)
      (profile : DeviceProfile)
      → disk.devices ≡ unreadable
      → let saved = (config_save K o' (config_load K o disk).0 config).0 in
        (saved.devices ≡ unreadable)
        × (config_save_device_profile K U o'' saved address profile ≡ (saved, false))
  unreadable_devices_kept U o o' o'' disk config address profile h =
      let loaded = (config_load K o disk).0 in
      let saved = (config_save K o' loaded config).0 in
      let devices =
        save-devices o' loaded config
        ∙ load-devices o disk
        ∙ (migrate-kept o disk).1 (ap is_missing h)
        ∙ h in
      (devices, refuse-unreadable U o'' saved address profile devices)
