-- ===== src/Config/RoundTrip.antt =====
-- What is saved is loaded again.
use earport_handoff.Base.{
  ℕ, ◌-◌, ◌≤◌, ◌≡◌, refl, sym, ap, ◌∙◌, inl, inr, Bool, true, false, not, ◌||◌, Option, none, some,
  ◌∷◌, arith, take, bytes_equal, bytes_equal_refl, ltb, if◌then◌else◌, Bool-cases,
}
use earport_handoff.Base.Int.{ℤ, pos, negsuc}
use earport_handoff.Base.Text.{Bytes}
use earport_handoff.State.{clamp_percent}
use earport_handoff.Config.KeyFile.{KeyFiles, KeyFileLaws, Utf8, Utf8Laws}
use earport_handoff.Config.{
  EarPortConfig, Outcomes, holds, Disk, is_missing, read_settings, settings_file, config_save,
  config_load, valid_mode, device_profile_display_name_size, DeviceProfile, read_profile,
  write_profile, level_or, saved_name, address_to_group, config_copy_display_name,
  config_load_device_profile, config_save_device_profile, load_profile, save_profile,
  load_existing_key_file_for_update,
}
use earport_handoff.Config.Kept.{migrate-kept, load-holds}
use earport_handoff.Config.Names.{copy-id, copy-IsUtf8, copy-lt}

-- where a result is a success, the branch that fails was not taken
if_ok :
    {A : Type 0} (b : Bool) (x y : A × Bool)
    → y.1 ≡ false
    → (if b then x else y).1 ≡ true
    → (if b then x else y) ≡ x
if_ok true x y failed ok = refl
if_ok false x y failed ok = absurd (ground arith)

if_ok_else :
    {A : Type 0} (b : Bool) (x y : A × Bool)
    → y.1 ≡ false
    → (if b then y else x).1 ≡ true
    → (if b then y else x) ≡ x
if_ok_else false x y failed ok = refl
if_ok_else true x y failed ok = absurd (ground arith)

clamp_percent_value : (level : ℤ) → (m : ℕ) × (clamp_percent level ≡ pos m) × (m ≤ 100)
clamp_percent_value (negsuc n) = (0, ground arith, omega arith)
clamp_percent_value (pos n) = elim (Bool-cases (ltb 100 n)) [
  | inl h ↦ (100, ground arith, omega arith)
  | inr h ↦ (n, ground arith, ground arith)
]

module _ (K : KeyFiles) (U : Utf8) (laws : KeyFileLaws K U) where
  read_settings-settings_file :
      (c : EarPortConfig) (n : ℕ)
      → c.ear_pause_mode ≡ pos n
      → n ≤ 2
      → read_settings K (settings_file K c) ≡ c
  unfolding read_settings settings_file
  read_settings-settings_file c n e h =
      let mode : valid_mode (K.read_integer (K.integer_value c.ear_pause_mode)) ≡ c.ear_pause_mode =
        rw (e, laws.read-integer n (omega arith)) (ground arith) in
      simp (laws.lookup-set_comment, laws.lookup-set_value, laws.read-boolean, mode) refl

  saved_settings :
      (o : Outcomes) (disk : Disk K) (c : EarPortConfig)
      → (config_save K o disk c).1 ≡ true
      → (config_save K o disk c).0.settings ≡ holds (settings_file K c)
  unfolding config_save
  saved_settings o disk c ok =
      let kept : Disk K × Bool = (disk, false) in
      let written : Disk K × Bool = (record disk { settings = holds (settings_file K c) }, true) in
      let inner = if o.saved then written else kept in
      let ready = if_ok_else (not o.directory_ready) inner kept refl ok in
      let saved =
        if_ok o.saved written kept refl (sym (ap (λ (r : Disk K × Bool). r.1) ready) ∙ ok) in
      ap (λ (r : Disk K × Bool). r.0.settings) (ready ∙ saved)

  -- Once settings with a mode from 0 to 2 have been saved with success, loading returns just them,
  -- with success, and leaves the settings file as it is: in any state of the disk and of the
  -- migration, and whatever the calls of the file system give then.
  pub load-save :
      (o o' : Outcomes) (disk : Disk K) (c : EarPortConfig) (n : ℕ)
      → c.ear_pause_mode ≡ pos n
      → n ≤ 2
      → (config_save K o disk c).1 ≡ true
      → let saved = (config_save K o disk c).0 in
        let loaded = config_load K o' saved in
        (loaded.1 ≡ c) × (loaded.2 ≡ true) × (loaded.0.settings ≡ saved.settings)
  load-save o o' disk c n e h ok =
      let saved = (config_save K o disk c).0 in
      let here = saved_settings o disk c ok in
      rw (load-holds K o' saved (settings_file K c) here) (
        read_settings-settings_file c n e h,
        refl,
        (migrate-kept K o' saved).0 (ap is_missing here),
      )

  profile_level :
      (level : ℤ)
      → level_or K U (pos 50) (some (K.integer_value (clamp_percent level))) ≡ clamp_percent level
  profile_level level =
      let (m, e, h) = clamp_percent_value level in
      rw (e, laws.read-integer m (omega arith)) (ground arith)

  read_profile-write_profile :
      Utf8Laws U
      → (f : K.File) (g : Bytes) (p : DeviceProfile)
      → read_profile K U (write_profile K U f g p) g ≡ record p {
        display_name = saved_name K U p;
        adaptive_noise_level = clamp_percent p.adaptive_noise_level;
        has_saved_settings = true;
      }
  unfolding write_profile read_profile
  read_profile-write_profile ulaws f g p =
      let name = saved_name K U p in
      let source = some (take 63 p.display_name) in
      let read : config_copy_display_name U (some name) ≡ name =
        copy-id U ulaws name (copy-IsUtf8 U ulaws source) (copy-lt U ulaws source) in
      simp
        (
          laws.lookup-set_value,
          bytes_equal_refl g,
          laws.read-boolean,
          profile_level p.adaptive_noise_level,
          laws.read-string name (copy-IsUtf8 U ulaws source),
          read,
        )
        refl

  pub has_group-write_profile :
      (f : K.File) (g : Bytes) (p : DeviceProfile) (g' : Bytes)
      → K.has_group (write_profile K U f g p) g' ≡ (bytes_equal g g' || K.has_group f g')
  unfolding write_profile
  has_group-write_profile f g p g' = simp laws.has_group-set_value (ground arith)

  -- what a save with success leaves
  saved_profile :
      (o : Outcomes) (disk : Disk K) (group : Bytes) (p : DeviceProfile) (old : Option K.File)
      → (save_profile K U o disk group p old).1 ≡ true
      → (f : K.File) × (old ≡ some f)
        × ((save_profile K U o disk group p old).0.devices ≡ holds (write_profile K U f group p))
  saved_profile o disk group p none ok = absurd (ground arith)
  saved_profile o disk group p (some f) ok = (
    f,
    refl,
    ap (λ (r : Disk K × Bool). r.0.devices)
        (if_ok o.saved (record disk { devices = holds (write_profile K U f group p) }, true)
          (disk, false) refl ok),
  )

  -- what a profile loads as once the file of devices holds a key file
  pub load_profile-holds :
      (disk : Disk K) (c : ℕ) (cs : Bytes) (f : K.File)
      → disk.devices ≡ holds f
      → config_load_device_profile K U disk (some (c ∷ cs))
        ≡ load_profile K U (holds f) (address_to_group (c ∷ cs))
  unfolding config_load_device_profile
  load_profile-holds disk c cs f h = ap (λ d. load_profile K U d (address_to_group (c ∷ cs))) h

  -- the disk after a save with success
  pub saved_device_profile :
      (o : Outcomes) (disk : Disk K) (c : ℕ) (cs : Bytes) (p : DeviceProfile)
      → (config_save_device_profile K U o disk (some (c ∷ cs)) p).1 ≡ true
      → (f : K.File) × (load_existing_key_file_for_update K U disk.devices ≡ some f)
        × ((config_save_device_profile K U o disk (some (c ∷ cs)) p).0.devices
            ≡ holds (write_profile K U f (address_to_group (c ∷ cs)) p))
  unfolding config_save_device_profile
  saved_device_profile o disk c cs p ok =
      let group = address_to_group (c ∷ cs) in
      let old = load_existing_key_file_for_update K U disk.devices in
      let e =
        if_ok_else (not o.directory_ready) (save_profile K U o disk group p old) (disk, false) refl
          ok in
      let (f, was, now) =
        saved_profile o disk group p old (sym (ap (λ (r : Disk K × Bool). r.1) e) ∙ ok) in
      (f, was, ap (λ (r : Disk K × Bool). r.0.devices) e ∙ now)

  -- Once a profile has been saved with success, loading the device's profile finds it: with the flags
  -- that were saved, the level cut to a percentage, the name as it was written, and the mark that the
  -- settings were saved.
  pub load-save_profile :
      Utf8Laws U
      → (o : Outcomes) (disk : Disk K) (c : ℕ) (cs : Bytes) (p : DeviceProfile)
      → (config_save_device_profile K U o disk (some (c ∷ cs)) p).1 ≡ true
      → config_load_device_profile K U
          (config_save_device_profile K U o disk (some (c ∷ cs)) p).0
          (some (c ∷ cs))
        ≡ (
          record p {
            display_name =
                config_copy_display_name U
                  (some (take (device_profile_display_name_size - 1) p.display_name));
            adaptive_noise_level = clamp_percent p.adaptive_noise_level;
            has_saved_settings = true;
          },
          true,
        )
  load-save_profile ulaws o disk c cs p ok =
      let group = address_to_group (c ∷ cs) in
      let (f, was, now) = saved_device_profile o disk c cs p ok in
      load_profile-holds _ c cs _ now
      ∙ rw
          (
            has_group-write_profile f group p group,
            bytes_equal_refl group,
            read_profile-write_profile ulaws f group p,
          )
          refl
