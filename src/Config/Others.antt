-- ===== src/Config/Others.antt =====
-- A profile that is saved leaves the other profiles as they are.
use earport_handoff.Base.{ℕ, ◌≡◌, refl, ap, ◌∙◌, true, false, some, ◌∷◌, arith, bytes_equal}
use earport_handoff.Base.Text.{Bytes}
use earport_handoff.Config.KeyFile.{KeyFiles, KeyFileLaws, Utf8}
use earport_handoff.Config.{
  Outcomes, Contents, missing, unreadable, holds, Disk, DeviceProfile, read_profile, write_profile,
  address_to_group, config_load_device_profile, config_save_device_profile, load_profile,
  load_existing_key_file_for_update,
}
use earport_handoff.Config.RoundTrip.{
  load_profile-holds, saved_device_profile, has_group-write_profile,
}

module _ (K : KeyFiles) (U : Utf8) (laws : KeyFileLaws K U) where
  read_profile-other :
      (f : K.File) (g g' : Bytes) (p : DeviceProfile)
      → bytes_equal g g' ≡ false
      → read_profile K U (write_profile K U f g p) g' ≡ read_profile K U f g'
  unfolding write_profile read_profile
  read_profile-other f g g' p e = simp (laws.lookup-set_value, e) refl

  load_profile-other :
      (f : K.File) (g g' : Bytes) (p : DeviceProfile)
      → bytes_equal g g' ≡ false
      → load_profile K U (holds (write_profile K U f g p)) g' ≡ load_profile K U (holds f) g'
  load_profile-other f g g' p e =
      rw (has_group-write_profile K U laws f g p g', e, read_profile-other f g g' p e) refl

  -- a missing file loads as an empty one
  load_profile-update :
      (files : Contents K.File) (f : K.File) (g : Bytes)
      → load_existing_key_file_for_update K U files ≡ some f
      → load_profile K U (holds f) g ≡ load_profile K U files g
  unfolding load_existing_key_file_for_update
  load_profile-update missing f g e =
      let same : f ≡ K.new = cc in rw (same, laws.has_group-new g) refl
  load_profile-update unreadable f g e = absurd (ground arith)
  load_profile-update (holds f') f g e =
      let same : f ≡ f' = cc in ap (λ x. load_profile K U (holds x) g) same

  -- Saving the profile of one device with success leaves what is loaded for every device with another
  -- group, that is, whose address differs in more than colons and underscores.
  pub save-other :
      (o : Outcomes) (disk : Disk K) (c c' : ℕ) (cs cs' : Bytes) (p : DeviceProfile)
      → bytes_equal (address_to_group (c ∷ cs)) (address_to_group (c' ∷ cs')) ≡ false
      → (config_save_device_profile K U o disk (some (c ∷ cs)) p).1 ≡ true
      → config_load_device_profile K U
          (config_save_device_profile K U o disk (some (c ∷ cs)) p).0
          (some (c' ∷ cs'))
        ≡ config_load_device_profile K U disk (some (c' ∷ cs'))
  unfolding config_load_device_profile
  save-other o disk c c' cs cs' p e ok =
      let group = address_to_group (c ∷ cs) in
      let group' = address_to_group (c' ∷ cs') in
      let (f, was, now) = saved_device_profile K U laws o disk c cs p ok in
      load_profile-holds K U laws (config_save_device_profile K U o disk (some (c ∷ cs)) p).0 c' cs'
        (write_profile K U f group p) now
      ∙ load_profile-other f group group' p e
      ∙ load_profile-update disk.devices f group' was
