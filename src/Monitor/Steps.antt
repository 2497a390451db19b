-- ===== src/Monitor/Steps.antt =====
-- What one advertisement does to the last attempt for a model.
use earport_handoff.Base.{
  ℕ, Bool, true, false, not, ◌&&◌, ◌||◌, Option, none, some, List, ◌==◌, arith, ◌≡◌, refl, sym, ap,
  ◌∙◌, ◌⊎◌, inl, inr, Bool-cases, Option-cases, if-holds, ==_iff, if◌then◌else◌,
}
use earport_handoff.Base.Int.{ℤ}
use earport_handoff.Base.Text.{Bytes}
use earport_handoff.Ble.{BleAirPodsAdvertisement, ble_handoff_suppression_observe}
use earport_handoff.Monitor.Targets.{BluezDeviceInfo}
use earport_handoff.Monitor.Tables.{
  handoff_unworn_rearm_usec, WearConnect, Surroundings, is_weak, tried_lately,
}
use earport_handoff.Monitor.Advertisements.{
  suppress_model, observe_worn, observe_advertisement, first_advertisement,
  process_apple_manufacturer_data,
}
use earport_handoff.Monitor.Attempts.{is_sent, observe_worn-Attempt}

abbrev pub is_of_model : ℕ → Option BleAirPodsAdvertisement → Bool
is_of_model model none = false
is_of_model model (some advertisement) = advertisement.model == model

pub and_false : (a b : Bool) → a ≡ true → (a && b) ≡ false → b ≡ false
and_false true b h h' = h'
and_false false b h h' = absurd (ground arith)

module _ (m : ℕ) (now : ℤ) (around : Surroundings) where
  -- What one advertisement does to the last attempt for `m`, where no suppression holds it.
  abbrev pub Step : WearConnect → WearConnect × Option BluezDeviceInfo → Bool → Type 0
  Step monitor r sent_for =
      (r.0.suppressions m ≡ none)
      × (((r.0.model_attempts m ≡ monitor.model_attempts m) × ((is_sent r.1 && sent_for) ≡ false))
          ⊎ ((r.0.model_attempts m ≡ some now)
              × (tried_lately (monitor.model_attempts m) now ≡ false)))

  -- a suppression of another model
  suppress-other :
      (monitor : WearConnect) (advertisement : BleAirPodsAdvertisement)
      → monitor.suppressions m ≡ none
      → let released =
          (suppress_model monitor advertisement now (monitor.suppressions advertisement.model)).0 in
        (released.suppressions m ≡ none) × (released.model_attempts m ≡ monitor.model_attempts m)
  suppress-other monitor advertisement free =
      elim (Option-cases (monitor.suppressions advertisement.model)) [
        | inl e ↦ rw e (free, refl)
        | inr (s, e) ↦
            let other : (advertisement.model == m) ≡ false =
              elim (Bool-cases (advertisement.model == m)) [
                | inl same ↦
                    let is_m = ap monitor.suppressions ((==_iff advertisement.model m).0 same) in
                    absurd (cc (sym e ∙ is_m ∙ free))
                | inr away ↦ away
              ] in
            let observed =
              ble_handoff_suppression_observe s advertisement.worn now handoff_unworn_rearm_usec in
            rw e (
              if-holds
                (λ (r : WearConnect × Bool).
                  (r.0.suppressions m ≡ none) × (r.0.model_attempts m ≡ monitor.model_attempts m))
                observed.1 _ _ (λ held. rw other (free, refl)) (λ released. rw other (free, refl)))
      ]

  -- from the tail of the handler, whose state may lack a suppression of another model
  worn-Step :
      (monitor released : WearConnect) (path : Bytes) (advertisement : BleAirPodsAdvertisement)
      → monitor.suppressions m ≡ none
      → released.suppressions m ≡ none
      → released.model_attempts m ≡ monitor.model_attempts m
      → Step monitor
          (if advertisement.worn && tried_lately (released.model_attempts advertisement.model) now
            then (released, none)
            else observe_worn released path advertisement now around)
          (advertisement.model == m)
  worn-Step monitor released path advertisement free free' same =
      if-holds
        (λ (r : WearConnect × Option BluezDeviceInfo). Step monitor r (advertisement.model == m))
        (advertisement.worn && tried_lately (released.model_attempts advertisement.model) now)
        (released, none) (observe_worn released path advertisement now around)
        (λ tried. (free', inl (same, refl)))
        (λ fresh.
          let (attempt, suppressions) =
            observe_worn-Attempt m now around released path advertisement in
          (
            suppressions ∙ free',
            elim attempt [
              | inl (unchanged, unsent) ↦ inl (unchanged ∙ same, unsent)
              | inr (attempted, is_m, worn) ↦ inr (
                attempted,
                ap (λ a. tried_lately a now)
                      (sym
                        (ap released.model_attempts ((==_iff advertisement.model m).0 is_m) ∙ same))
                    ∙ and_false advertisement.worn _ worn fresh,
              )
            ],
          ))

  pub idle-Step :
      (monitor released : WearConnect) (sent_for : Bool)
      → released.suppressions m ≡ none
      → released.model_attempts m ≡ monitor.model_attempts m
      → Step monitor (released, none) sent_for
  idle-Step monitor released sent_for free same = (free, inl (same, refl))

  observe_advertisement-Step :
      (monitor : WearConnect) (path : Bytes) (advertisement : BleAirPodsAdvertisement)
      → monitor.suppressions m ≡ none
      → Step monitor
          (observe_advertisement monitor path advertisement now around)
          (advertisement.model == m)
  unfolding observe_advertisement
  observe_advertisement-Step monitor path advertisement free =
      let model = advertisement.model in
      let good = λ (r : WearConnect × Option BluezDeviceInfo). Step monitor r (model == m) in
      let suppressed = suppress_model monitor advertisement now (monitor.suppressions model) in
      let (free', same) = suppress-other monitor advertisement free in
      if-holds good (advertisement.worn && is_weak (monitor.advertisement_rssi path) now) _ _
        (λ weak. idle-Step monitor monitor (model == m) free refl)
        (λ strong.
          if-holds good suppressed.1 _ _
            (λ held. idle-Step monitor suppressed.0 (model == m) free' same)
            (λ free_now. worn-Step monitor suppressed.0 path advertisement free free' same))

  pub see-Step :
      (monitor : WearConnect) (path : Bytes) (entries : List (ℕ × Option Bytes))
      → monitor.suppressions m ≡ none
      → Step monitor
          (process_apple_manufacturer_data monitor path (some entries) now around)
          (is_of_model m (first_advertisement entries))
  unfolding process_apple_manufacturer_data
  see-Step monitor path entries free =
      let good = λ (r : WearConnect × Option BluezDeviceInfo).
        Step monitor r (is_of_model m (first_advertisement entries)) in
      if-holds good (not monitor.auto_connect_on_wear || around.any_known) _ _
        (λ off. idle-Step monitor monitor (is_of_model m (first_advertisement entries)) free refl)
        (λ on. elim (Option-cases (first_advertisement entries)) [
          | inl e ↦ rw e (idle-Step monitor monitor false free refl)
          | inr (a, e) ↦ rw e (observe_advertisement-Step monitor path a free)
        ])
