-- ===== src/Ble/Firing.antt =====
-- When the edge detector asks for a connection, over every sequence of observations.
use earport_handoff.Base.{
  ℕ, ◌+◌, ◌≤◌, Bool, true, false, not, ◌&&◌, List, [], ◌∷◌, arith, if◌then◌else◌,
}
use earport_handoff.Base.Int.{ℤ, pos}
use earport_handoff.Ble.{BleAutoConnectState, ble_autoconnect_observe}

pub record Observation : Type 0 where
  pub worn : Bool
  pub confirm_first_worn : Bool
  pub now_usec : ℤ

-- `g_new0`
abbrev pub fresh : BleAutoConnectState
fresh = record {
  has_observed_unworn = false;
  worn_sequence_active = false;
  worn_observations = 0;
  first_worn_observation_usec = pos 0;
  sequence_consumed = false;
  has_attempted = false;
  last_attempt_usec = pos 0;
}

module _ (window cooldown : ℤ) where
  abbrev pub observe : BleAutoConnectState → Observation → BleAutoConnectState × Bool
  observe s o = ble_autoconnect_observe s o.worn o.confirm_first_worn o.now_usec window cooldown

  -- how often the observations fire
  abbrev pub fires : BleAutoConnectState → List Observation → ℕ
  fires s [] = 0
  fires s (o ∷ os) = (if (observe s o).1 then 1 else 0) + fires (observe s o).0 os

-- the unworn to worn changes, where the observation before the list was worn or not
abbrev pub edges : Bool → List Observation → ℕ
edges was_worn [] = 0
edges was_worn (o ∷ os) = (if not was_worn && o.worn then 1 else 0) + edges o.worn os

-- A worn sequence may still fire.
abbrev armed : BleAutoConnectState → Bool → ℕ
armed s was_worn = if (s.has_observed_unworn && not s.sequence_consumed) && was_worn then 1 else 0

fires_step :
    (window cooldown : ℤ) (s : BleAutoConnectState) (o : Observation) (was_worn : Bool)
    → (if (observe window cooldown s o).1 then 1 else 0)
        + armed (observe window cooldown s o).0 o.worn
      ≤ (if not was_worn && o.worn then 1 else 0) + armed s was_worn
unfolding ble_autoconnect_observe
fires_step window cooldown s o was_worn = ground arith

fires-le :
    (window cooldown : ℤ) (os : List Observation) (s : BleAutoConnectState) (was_worn : Bool)
    → fires window cooldown s os ≤ edges was_worn os + armed s was_worn
fires-le window cooldown [] s was_worn = omega arith
fires-le window cooldown (o ∷ os) s was_worn = omega (
  arith,
  fires_step window cooldown s o was_worn,
  fires-le window cooldown os (observe window cooldown s o).0 o.worn,
)

-- Over any observations of a new device, whatever their times and strengths, the daemon is asked
-- to connect at most once for each change from unworn to worn.
pub fires-le-edges :
    (window cooldown : ℤ) (os : List Observation) → fires window cooldown fresh os ≤ edges true os
fires-le-edges window cooldown os = omega (arith, fires-le window cooldown os fresh true)
