-- ===== src/Ble/Observe.antt =====
-- The edge detector and the suppression after a handoff. Times are `int64_t` microseconds of the
-- monotonic clock, here integers: their differences are taken of ordered times and do not overflow.
use earport_handoff.Base.{ℕ, ◌+◌, Bool, true, false, not, ◌&&◌, ◌||◌, ltb, if◌then◌else◌}
use earport_handoff.Base.Int.{ℤ, pos, ltb_ℤ, ◌-ℤ◌}

pub record BleAutoConnectState : Type 0 where
  pub has_observed_unworn : Bool
  pub worn_sequence_active : Bool
  pub worn_observations : ℕ
  pub first_worn_observation_usec : ℤ
  pub sequence_consumed : Bool
  pub has_attempted : Bool
  pub last_attempt_usec : ℤ

pub record BleHandoffSuppressionState : Type 0 where
  pub active : Bool
  pub first_unworn_observation_usec : ℤ

-- an unworn observation rearms
abbrev pub rearm : BleAutoConnectState → BleAutoConnectState
rearm state = record state {
  has_observed_unworn = true;
  worn_sequence_active = false;
  worn_observations = 0;
  first_worn_observation_usec = pos 0;
  sequence_consumed = false;
}

abbrev pub outside_window : BleAutoConnectState → ℤ → ℤ → Bool
outside_window state now_usec confirmation_window_usec =
    state.worn_sequence_active
    && (ltb_ℤ now_usec state.first_worn_observation_usec
        || ltb_ℤ confirmation_window_usec (now_usec -ℤ state.first_worn_observation_usec))

abbrev pub begin_sequence : BleAutoConnectState → ℤ → BleAutoConnectState
begin_sequence state now_usec = record state {
  worn_sequence_active = true;
  worn_observations = 1;
  first_worn_observation_usec = now_usec;
  sequence_consumed = false;
}

abbrev pub count_observation : BleAutoConnectState → BleAutoConnectState
count_observation state = record state {
  worn_observations =
      if ltb state.worn_observations 2
      then state.worn_observations + 1
      else state.worn_observations;
}

abbrev pub in_cooldown : BleAutoConnectState → ℤ → ℤ → Bool
in_cooldown state now_usec cooldown_usec =
    state.has_attempted
    && (ltb_ℤ now_usec state.last_attempt_usec
        || ltb_ℤ (now_usec -ℤ state.last_attempt_usec) cooldown_usec)

-- from the second increment on: consume the sequence, and attempt unless in the cooldown
unfoldable pub attempt : BleAutoConnectState → ℤ → ℤ → BleAutoConnectState × Bool
attempt counted now_usec cooldown_usec =
    if ltb counted.worn_observations 2 || counted.sequence_consumed
    then (counted, false)
    else if in_cooldown counted now_usec cooldown_usec
    then (record counted { sequence_consumed = true }, false)
    else (
      record counted {
        sequence_consumed = true;
        has_attempted = true;
        last_attempt_usec = now_usec;
      },
      true,
    )

unfoldable pub ble_autoconnect_observe :
    BleAutoConnectState → Bool → Bool → ℤ → ℤ → ℤ → BleAutoConnectState × Bool
unfolding attempt
ble_autoconnect_observe state worn confirm_first_worn now_usec confirmation_window_usec
      cooldown_usec =
    let begins =
      not state.worn_sequence_active || outside_window state now_usec confirmation_window_usec in
    let started = if begins then begin_sequence state now_usec else state in
    if ltb_ℤ confirmation_window_usec (pos 0) || ltb_ℤ cooldown_usec (pos 0)
    then (state, false)
    else if not worn
    then (rearm state, false)
    else if not state.has_observed_unworn
    then (state, false)
    else if state.sequence_consumed
    then (state, false)
    else if begins && not confirm_first_worn
    then (started, false)
    else attempt (count_observation started) now_usec cooldown_usec

unfoldable pub ble_handoff_suppression_activate :
    BleHandoffSuppressionState → BleHandoffSuppressionState
ble_handoff_suppression_activate state = record state {
  active = true;
  first_unworn_observation_usec = pos 0;
}

-- `first_unworn_observation_usec == 0`
abbrev pub is_zero : ℤ → Bool
is_zero t = not (ltb_ℤ t (pos 0)) && not (ltb_ℤ (pos 0) t)

unfoldable pub ble_handoff_suppression_observe :
    BleHandoffSuppressionState → Bool → ℤ → ℤ → BleHandoffSuppressionState × Bool
ble_handoff_suppression_observe state worn now_usec unworn_rearm_usec =
    if not state.active || ltb_ℤ unworn_rearm_usec (pos 0)
    then (state, false)
    else if worn
    then (record state { first_unworn_observation_usec = pos 0 }, true)
    else if is_zero state.first_unworn_observation_usec
        || ltb_ℤ now_usec state.first_unworn_observation_usec
    then (record state { first_unworn_observation_usec = now_usec }, true)
    else if ltb_ℤ (now_usec -ℤ state.first_unworn_observation_usec) unworn_rearm_usec
    then (state, true)
    else (record state { active = false; first_unworn_observation_usec = pos 0 }, false)
