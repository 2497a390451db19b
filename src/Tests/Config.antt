-- ===== src/Tests/Config.antt =====
-- The configuration over key files that are functions, and text that is ASCII.
use earport_handoff.Base.{
  ℕ, suc, ◌-◌, ◌≤◌, ◌≡◌, refl, ap, inl, inr, Bool, true, false, ◌&&◌, ◌||◌, Option, none, some, [],
  ◌∷◌, arith, length, take, map, bytes_equal, ltb, if◌then◌else◌, Bool-cases,
}
use earport_handoff.Base.Int.{ℤ, pos, negsuc, ◌≤ℤ◌}
use earport_handoff.Base.Text.{Bytes, codes}
use earport_handoff.State.{clamp_percent}
use earport_handoff.Config.KeyFile.{KeyFiles, KeyFileLaws, Utf8, Utf8Laws}
use earport_handoff.Config.{
  EarPortConfig, Outcomes, missing, unreadable, holds, Disk, config_get_defaults, config_save,
  config_load, DeviceProfile, config_copy_display_name, device_profile_display_name_size,
  read_profile, config_load_device_profile, config_save_device_profile,
  load_existing_key_file_for_update, write_profile,
}
use earport_handoff.Config.Kept.{unreadable_settings_kept, unreadable_devices_kept}
use earport_handoff.Config.RoundTrip.{load-save, load-save_profile}
use earport_handoff.Config.Others.{save-other}
use earport_handoff.Config.Ranges.{IsInRange, loaded-IsInRange}

abbrev integer_bytes : ℤ → Bytes
integer_bytes (pos n) = 0 ∷ n ∷ []
integer_bytes (negsuc n) = 1 ∷ n ∷ []

abbrev bytes_integer : Bytes → ℤ
bytes_integer (sign ∷ n ∷ []) = if ltb 0 sign then negsuc n else pos n
bytes_integer _ = pos 0

abbrev bytes_boolean : Bytes → Bool
bytes_boolean (b ∷ []) = ltb 0 b
bytes_boolean _ = false

abbrev key_files : KeyFiles
key_files = record {
  File = (Bytes → Bool) × (Bytes → Bytes → Option Bytes);
  new = (λ g. false, λ g k. none);
  has_group = λ f g. f.0 g;
  lookup = λ f g k. f.1 g k;
  set_value = λ f g k v. (
    λ g'. bytes_equal g g' || f.0 g',
    λ g' k'. if bytes_equal g g' && bytes_equal k k' then some v else f.1 g' k',
  );
  set_comment = λ f g. f;
  integer_value = integer_bytes;
  read_integer = bytes_integer;
  boolean_value = λ b. if b then 1 ∷ [] else 0 ∷ [];
  read_boolean = bytes_boolean;
  string_value = λ s. s;
  read_string = λ s. some s;
}

abbrev ascii_length : Bytes → ℕ
ascii_length [] = 0
ascii_length (c ∷ cs) = let rest = ascii_length cs in if ltb c 128 then suc rest else 0

abbrev question_mark : ℕ → ℕ
question_mark c = if ltb c 128 then c else b'?'

abbrev ascii : Utf8
ascii = record { make_valid = map question_mark; valid_length = ascii_length }

ascii_length-le : (s : Bytes) → ascii_length s ≤ length s
ascii_length-le [] = omega arith
ascii_length-le (c ∷ cs) = ground (arith, ascii_length-le cs)

ascii_length-take :
    (s : Bytes) → ascii_length (take (ascii_length s) s) ≡ length (take (ascii_length s) s)
ascii_length-take [] = refl
ascii_length-take (c ∷ cs) = elim (Bool-cases (ltb c 128)) [
  | inl h ↦ rw (h, h) (ap suc (ascii_length-take cs))
  | inr h ↦ rw h refl
]

ascii_length-map : (s : Bytes) → ascii_length (map question_mark s) ≡ length (map question_mark s)
ascii_length-map [] = refl
ascii_length-map (c ∷ cs) =
    let small : ltb (question_mark c) 128 ≡ true = ground arith in
    rw small (ap suc (ascii_length-map cs))

map-ascii : (s : Bytes) → ascii_length s ≡ length s → map question_mark s ≡ s
map-ascii [] h = refl
map-ascii (c ∷ cs) h = elim (Bool-cases (ltb c 128)) [
  | inl e ↦ rw e (ap (λ l. c ∷ l) (map-ascii cs (ground arith)))
  | inr e ↦ absurd (ground arith)
]

abbrev ascii_laws : Utf8Laws ascii
ascii_laws = record {
  valid_length-le = ascii_length-le;
  take-IsUtf8 = ascii_length-take;
  make_valid-IsUtf8 = ascii_length-map;
  make_valid-id = map-ascii;
}

boolean_read : (b : Bool) → bytes_boolean (if b then 1 ∷ [] else 0 ∷ []) ≡ b
boolean_read true = refl
boolean_read false = refl

abbrev laws : KeyFileLaws key_files ascii
laws = record {
  has_group-new = λ g. refl;
  has_group-set_value = λ f g k v g'. refl;
  lookup-set_value = λ f g k v g' k'. refl;
  lookup-set_comment = λ f g g' k'. refl;
  read-integer = λ n h. refl;
  read-boolean = boolean_read;
  read-string = λ s v. refl;
}

-- Every call of the file system succeeds, on a disk with no file.
abbrev all_well : Outcomes
all_well = record {
  migration_directory_ready = true;
  settings_moved = true;
  devices_moved = true;
  directory_ready = true;
  saved = true;
}

abbrev empty_disk : Disk key_files
empty_disk = record {
  settings = missing;
  devices = missing;
  legacy_is_dir = false;
  legacy_settings = missing;
  legacy_devices = missing;
  migration_checked = false;
}

abbrev broken_disk : Disk key_files
broken_disk = record empty_disk {
  settings = unreadable;
  devices = unreadable;
  legacy_is_dir = true;
  legacy_settings = holds key_files.new;
}

-- one file that cannot be read, and legacy ones
abbrev broken_settings : Disk key_files
broken_settings = record broken_disk { devices = missing; legacy_devices = holds key_files.new }

abbrev broken_devices : Disk key_files
broken_devices = record broken_disk { settings = missing; legacy_devices = holds key_files.new }

abbrev one_out_config : EarPortConfig
one_out_config = record {
  ear_pause_mode = pos 1;
  handoff_enabled = false;
  auto_connect_on_wear = true;
  disconnect_on_removal = false;
}

abbrev loud_profile : DeviceProfile
loud_profile = record {
  display_name = codes "Pods";
  listening_modes = record {
    off_enabled = true;
    transparency_enabled = false;
    anc_enabled = true;
    adaptive_enabled = true;
  };
  conversational_awareness = true;
  adaptive_noise_level = pos 120;
  has_saved_settings = false;
}

-- two addresses, each as its first byte and the rest
abbrev rest : Bytes
rest = codes "A:00:00:00:00:01"

abbrev other_rest : Bytes
other_rest = codes "B:00:00:00:00:01"

settings_saved : (config_save key_files all_well empty_disk one_out_config).1 ≡ true
unfolding config_save
settings_saved = refl

profile_saved :
    (config_save_device_profile key_files ascii all_well empty_disk
      (some (b'A' ∷ rest))
      loud_profile).1
    ≡ true
unfolding config_save_device_profile load_existing_key_file_for_update
profile_saved = refl

saved_level :
    (config_load_device_profile key_files ascii
      (config_save_device_profile key_files ascii all_well empty_disk
        (some (b'A' ∷ rest))
        loud_profile).0
      (some (b'A' ∷ rest))).0.adaptive_noise_level
    ≡ pos 100
unfolding config_save_device_profile load_existing_key_file_for_update write_profile
    config_load_device_profile read_profile
saved_level = refl

load-save_example :
    let saved = (config_save key_files all_well empty_disk one_out_config).0 in
    let loaded = config_load key_files all_well saved in
    (loaded.1 ≡ one_out_config) × (loaded.2 ≡ true) × (loaded.0.settings ≡ saved.settings)
load-save_example =
    load-save key_files ascii laws all_well all_well empty_disk one_out_config 1 refl (omega arith)
      settings_saved

unreadable_settings_kept_example :
    let loaded = config_load key_files all_well broken_settings in
    (loaded.1 ≡ config_get_defaults)
    × (loaded.2 ≡ false)
    × (loaded.0.settings ≡ unreadable)
    × ((config_save_device_profile key_files ascii all_well loaded.0
          (some (b'A' ∷ rest))
          loud_profile).0.settings
        ≡ unreadable)
unreadable_settings_kept_example =
    unreadable_settings_kept key_files ascii all_well all_well broken_settings (some (b'A' ∷ rest))
      loud_profile refl

unreadable_devices_kept_example :
    let saved =
      (config_save key_files all_well
        (config_load key_files all_well broken_devices).0
        one_out_config).0 in
    (saved.devices ≡ unreadable)
    × (config_save_device_profile key_files ascii all_well saved (some (b'A' ∷ rest)) loud_profile
        ≡ (saved, false))
unreadable_devices_kept_example =
    unreadable_devices_kept key_files ascii all_well all_well all_well broken_devices one_out_config
      (some (b'A' ∷ rest)) loud_profile refl

load-save_profile_example :
    config_load_device_profile key_files ascii
      (config_save_device_profile key_files ascii all_well empty_disk
        (some (b'A' ∷ rest))
        loud_profile).0
      (some (b'A' ∷ rest))
    ≡ (
      record loud_profile {
        display_name =
            config_copy_display_name ascii
              (some (take (device_profile_display_name_size - 1) (codes "Pods")));
        adaptive_noise_level = clamp_percent (pos 120);
        has_saved_settings = true;
      },
      true,
    )
load-save_profile_example =
    load-save_profile key_files ascii laws ascii_laws all_well empty_disk b'A' rest loud_profile
      profile_saved

save-other_example :
    config_load_device_profile key_files ascii
      (config_save_device_profile key_files ascii all_well empty_disk
        (some (b'A' ∷ rest))
        loud_profile).0
      (some (b'A' ∷ other_rest))
    ≡ config_load_device_profile key_files ascii empty_disk (some (b'A' ∷ other_rest))
save-other_example =
    save-other key_files ascii laws all_well empty_disk b'A' b'A' rest other_rest loud_profile refl
      profile_saved

loaded-IsInRange_example :
    let mode = (config_load key_files all_well broken_disk).1.ear_pause_mode in
    (pos 0 ≤ℤ mode)
    × (mode ≤ℤ pos 2)
    × IsInRange ascii
        (config_load_device_profile key_files ascii broken_disk (some (b'A' ∷ rest))).0
loaded-IsInRange_example =
    loaded-IsInRange key_files ascii ascii_laws all_well broken_disk (some (b'A' ∷ rest))
