-- ===== src/Ble/Spacing.antt =====
-- How far apart the attempts of the edge detector are.
use earport_handoff.Base.{◌≡◌, ◌∙◌, ◌⊎◌, inl, inr, true, false, List, [], ◌∷◌, arith, if◌then◌else◌}
use earport_handoff.Base.Int.{ℤ, ◌-ℤ◌, ◌≤ℤ◌}
use earport_handoff.Ble.{BleAutoConnectState, ble_autoconnect_observe}
use earport_handoff.Ble.Firing.{Observation, observe}

-- the times at which the observations fire
abbrev pub fire_times : ℤ → ℤ → BleAutoConnectState → List Observation → List ℤ
fire_times window cooldown s [] = []
fire_times window cooldown s (o ∷ os) =
    let rest = fire_times window cooldown (observe window cooldown s o).0 os in
    if (observe window cooldown s o).1 then o.now_usec ∷ rest else rest

abbrev pub SpacedFrom : ℤ → ℤ → List ℤ → Type 0
SpacedFrom cooldown t [] = Unit
SpacedFrom cooldown t (u ∷ us) = (t ≤ℤ u) × (cooldown ≤ℤ u -ℤ t) × SpacedFrom cooldown u us

abbrev pub Spaced : ℤ → List ℤ → Type 0
Spaced cooldown [] = Unit
Spaced cooldown (t ∷ ts) = SpacedFrom cooldown t ts

-- Firing records its time; anything else leaves the time of the last attempt.
fire_cases :
    (window cooldown : ℤ) (s : BleAutoConnectState) (o : Observation)
    → (((observe window cooldown s o).1 ≡ true)
        × ((observe window cooldown s o).0.has_attempted ≡ true)
        × ((observe window cooldown s o).0.last_attempt_usec ≡ o.now_usec)
        × (s.has_attempted ≡ true
            → (s.last_attempt_usec ≤ℤ o.now_usec)
              × (cooldown ≤ℤ o.now_usec -ℤ s.last_attempt_usec)))
      ⊎ (((observe window cooldown s o).1 ≡ false)
          × ((observe window cooldown s o).0.has_attempted ≡ s.has_attempted)
          × ((observe window cooldown s o).0.last_attempt_usec ≡ s.last_attempt_usec))
unfolding ble_autoconnect_observe
fire_cases window cooldown s o = ground arith

pub spaced_from :
    (window cooldown : ℤ) (os : List Observation) (s : BleAutoConnectState)
    → s.has_attempted ≡ true
    → SpacedFrom cooldown s.last_attempt_usec (fire_times window cooldown s os)
spaced_from window cooldown [] s h = tt
spaced_from window cooldown (o ∷ os) s h =
    let s' = (observe window cooldown s o).0 in
    elim (fire_cases window cooldown s o) [
      | inl (fired, attempted, time, apart) ↦
          rw fired
            ((apart h).0, (apart h).1, rw time at (spaced_from window cooldown os s' attempted))
      | inr (idle, attempted, time) ↦
          rw idle (rw time at (spaced_from window cooldown os s' (attempted ∙ h)))
    ]

observe-Spaced :
    (window cooldown : ℤ) (os : List Observation) (s : BleAutoConnectState)
    → Spaced cooldown (fire_times window cooldown s os)
observe-Spaced window cooldown [] s = tt
observe-Spaced window cooldown (o ∷ os) s =
    let s' = (observe window cooldown s o).0 in
    elim (fire_cases window cooldown s o) [
      | inl (fired, attempted, time, apart) ↦
          rw fired (rw time at (spaced_from window cooldown os s' attempted))
      | inr (idle, attempted, time) ↦ rw idle (observe-Spaced window cooldown os s')
    ]

-- Over any observations, from any state: each attempt to connect comes at least the cooldown
-- after the attempt before it, also if the observations' times go back.
pub fire_times-Spaced :
    (window cooldown : ℤ) (os : List Observation) (s : BleAutoConnectState)
    → Spaced cooldown (fire_times window cooldown s os)
fire_times-Spaced = observe-Spaced
