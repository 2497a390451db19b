-- ===== src/Monitor/Cooldown.antt =====
-- How far apart the automatic connections to one model are.
use earport_handoff.Base.{
  ℕ, false, ◌&&◌, Option, none, some, List, [], ◌∷◌, arith, ◌≡◌, refl, sym, ap, ◌∙◌, inl, inr,
  if-holds, if◌then◌else◌,
}
use earport_handoff.Base.Int.{ℤ, ◌-ℤ◌, ◌≤ℤ◌}
use earport_handoff.Base.Text.{Bytes}
use earport_handoff.Monitor.Tables.{
  AdvertisementRssi, auto_connect_cooldown_usec, WearConnect, tried_lately,
}
use earport_handoff.Monitor.Advertisements.{process_apple_manufacturer_data}
use earport_handoff.Base.Int.{int_laws, -ℤ_parts}
use earport_handoff.Ble.Spacing.{SpacedFrom, Spaced}
use earport_handoff.Monitor.Attempts.{is_sent}
use earport_handoff.Monitor.Steps.{is_of_model, Step, idle-Step, see-Step}
use earport_handoff.Monitor.Sightings.{Sighting, cache_rssi, see, shown}

-- the times come in their order, none before `t`
abbrev pub IsOrderedFrom : ℤ → List Sighting → Type 0
IsOrderedFrom t [] = Unit
IsOrderedFrom t (o ∷ os) = (t ≤ℤ o.now_usec) × IsOrderedFrom o.now_usec os

-- the times at which a Connect is sent for an advertisement of the model
abbrev pub connect_times : ℕ → WearConnect → List Sighting → List ℤ
connect_times m monitor [] = []
connect_times m monitor (o ∷ os) =
    let rest = connect_times m (see monitor o).0 os in
    if is_sent (see monitor o).1 && is_of_model m (shown o.manufacturer_data)
    then o.now_usec ∷ rest
    else rest

le_trans : (a b c : ℤ) → a ≤ℤ b → b ≤ℤ c → a ≤ℤ c
le_trans a b c h h' = omega (arith, h, h')

IsOrderedFrom-earlier :
    (t u : ℤ) (os : List Sighting) → t ≤ℤ u → IsOrderedFrom u os → IsOrderedFrom t os
IsOrderedFrom-earlier t u [] h v = tt
IsOrderedFrom-earlier t u (o ∷ os) h (first, v) = (le_trans t u o.now_usec h first, v)

longer : (c t u v : ℤ) → t ≤ℤ u → c ≤ℤ v -ℤ u → c ≤ℤ v -ℤ t
longer c t u v h h' = omega (int_laws, -ℤ_parts v u, -ℤ_parts v t)

SpacedFrom-earlier :
    (c t u : ℤ) (times : List ℤ) → t ≤ℤ u → SpacedFrom c u times → SpacedFrom c t times
SpacedFrom-earlier c t u [] h v = tt
SpacedFrom-earlier c t u (x ∷ times) h (first, apart, v) =
    (le_trans t u x h first, longer c t u x h apart, v)

SpacedFrom-Spaced : (c t : ℤ) (times : List ℤ) → SpacedFrom c t times → Spaced c times
SpacedFrom-Spaced c t [] v = tt
SpacedFrom-Spaced c t (x ∷ times) (first, apart, v) = v

waited :
    (t now : ℤ)
    → t ≤ℤ now
    → tried_lately (some t) now ≡ false
    → auto_connect_cooldown_usec ≤ℤ now -ℤ t
waited t now h guard = ground arith

-- the record of a strength leaves the tables that are by model
pub cache_rssi-tables :
    (m : ℕ) (monitor : WearConnect) (path : Bytes) (rssi : Option AdvertisementRssi)
    → ((cache_rssi monitor path rssi).suppressions m ≡ monitor.suppressions m)
      × ((cache_rssi monitor path rssi).model_attempts m ≡ monitor.model_attempts m)
unfolding cache_rssi
cache_rssi-tables m monitor path none = (refl, refl)
cache_rssi-tables m monitor path (some rssi) = (refl, refl)

-- from a state whose attempt for the model is the same
process-Step :
    (m : ℕ) (monitor cached : WearConnect) (o : Sighting)
    (entries : Option (List (ℕ × Option Bytes)))
    → cached.suppressions m ≡ none
    → cached.model_attempts m ≡ monitor.model_attempts m
    → Step m o.now_usec o.around monitor
        (process_apple_manufacturer_data cached o.path entries o.now_usec o.around)
        (is_of_model m (shown entries))
unfolding process_apple_manufacturer_data
process-Step m monitor cached o none free same =
    idle-Step m o.now_usec o.around monitor cached false free same
process-Step m monitor cached o (some entries) free same =
    let (free', step) = see-Step m o.now_usec o.around cached o.path entries free in
    (
      free',
      elim step [
        | inl (unchanged, unsent) ↦ inl (unchanged ∙ same, unsent)
        | inr (now, guard) ↦ inr (now, ap (λ a. tried_lately a o.now_usec) (sym same) ∙ guard)
      ],
    )

sight-Step :
    (m : ℕ) (monitor : WearConnect) (o : Sighting)
    → monitor.suppressions m ≡ none
    → Step m o.now_usec o.around monitor (see monitor o) (is_of_model m (shown o.manufacturer_data))
unfolding see
sight-Step m monitor o free =
    let (suppressions, attempts) = cache_rssi-tables m monitor o.path o.rssi in
    process-Step m monitor (cache_rssi monitor o.path o.rssi) o o.manufacturer_data
      (suppressions ∙ free) attempts

module _ (m : ℕ) where
  spaced_from :
      (os : List Sighting) (monitor : WearConnect) (t : ℤ)
      → monitor.suppressions m ≡ none
      → monitor.model_attempts m ≡ some t
      → IsOrderedFrom t os
      → SpacedFrom auto_connect_cooldown_usec t (connect_times m monitor os)
  spaced_from [] monitor t free last v = tt
  spaced_from (o ∷ os) monitor t free last (later, v) =
      let sent = is_sent (see monitor o).1 && is_of_model m (shown o.manufacturer_data) in
      let next = (see monitor o).0 in
      let (free', step) = sight-Step m monitor o free in
      elim step [
        | inl (same, unsent) ↦ rw unsent (
            spaced_from os next t free' (same ∙ last)
              (IsOrderedFrom-earlier t o.now_usec os later v))
        | inr (now, guard) ↦
            let rest = spaced_from os next o.now_usec free' now v in
            if-holds (SpacedFrom auto_connect_cooldown_usec t) sent _ _
              (λ e. (later, waited t o.now_usec later (rw last at guard), rest))
              (λ e. SpacedFrom-earlier auto_connect_cooldown_usec t o.now_usec _ later rest)
      ]

  -- From a monitor that has not tried to connect the model and holds no suppression of it, over any
  -- signals in the order of their times, of any devices, with any strengths and advertisements: the
  -- Connect calls for the model are at least 30 seconds apart, whichever paths its advertisements
  -- come from and whatever devices are paired, known or in flight.
  pub connect_times-Spaced :
      (os : List Sighting) (monitor : WearConnect) (t : ℤ)
      → monitor.suppressions m ≡ none
      → monitor.model_attempts m ≡ none
      → IsOrderedFrom t os
      → Spaced auto_connect_cooldown_usec (connect_times m monitor os)
  connect_times-Spaced [] monitor t free fresh v = tt
  connect_times-Spaced (o ∷ os) monitor t free fresh (later, v) =
      let sent = is_sent (see monitor o).1 && is_of_model m (shown o.manufacturer_data) in
      let next = (see monitor o).0 in
      let (free', step) = sight-Step m monitor o free in
      elim step [
        | inl (same, unsent) ↦
            rw unsent (connect_times-Spaced os next o.now_usec free' (same ∙ fresh) v)
        | inr (now, guard) ↦
            let rest = spaced_from os next o.now_usec free' now v in
            if-holds (Spaced auto_connect_cooldown_usec) sent _ _ (λ e. rest)
              (λ e. SpacedFrom-Spaced auto_connect_cooldown_usec o.now_usec _ rest)
      ]
