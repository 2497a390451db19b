-- ===== src/Wear.antt =====
-- daemon/src/wear_policy.c and wear_policy.h: when a wear state blocks playback, and what to do
-- when the wear state or the configured mode changes.
pub mod Edges
pub mod Gate
use earport_handoff.Base.{Bool, true, false, not, ◌&&◌, ◌||◌, if◌then◌else◌}

pub data EarPauseMode : Type 0 where
  disabled one_out both_out : EarPauseMode

pub data WearPolicyAction : Type 0 where
  none pause resume : WearPolicyAction

-- `mode == EAR_PAUSE_DISABLED`
abbrev pub is_disabled : EarPauseMode → Bool
is_disabled disabled = true
is_disabled _ = false

-- the `switch` of `wear_policy_blocks_playback`
abbrev pub mode_blocks : EarPauseMode → Bool → Bool → Bool
mode_blocks one_out left_in_ear right_in_ear = not left_in_ear || not right_in_ear
mode_blocks both_out left_in_ear right_in_ear = not left_in_ear && not right_in_ear
mode_blocks disabled left_in_ear right_in_ear = false

unfoldable pub wear_policy_blocks_playback : EarPauseMode → Bool → Bool → Bool → Bool
wear_policy_blocks_playback mode state_valid left_in_ear right_in_ear =
    if not state_valid || is_disabled mode then false else mode_blocks mode left_in_ear right_in_ear

unfoldable pub wear_policy_transition :
    EarPauseMode → Bool → Bool → Bool → Bool → Bool → WearPolicyAction
wear_policy_transition mode previous_state_valid previous_left_in_ear previous_right_in_ear
      left_in_ear right_in_ear =
    let now_blocked = wear_policy_blocks_playback mode true left_in_ear right_in_ear in
    let was_blocked =
      wear_policy_blocks_playback mode true previous_left_in_ear previous_right_in_ear in
    if is_disabled mode
    then none
    else if not previous_state_valid
    then (if now_blocked then pause else none)
    else if not was_blocked && now_blocked
    then pause
    else if was_blocked && not now_blocked
    then resume
    else none

unfoldable pub wear_policy_mode_change :
    EarPauseMode → EarPauseMode → Bool → Bool → Bool → WearPolicyAction
wear_policy_mode_change previous_mode new_mode state_valid left_in_ear right_in_ear =
    let was_blocked = wear_policy_blocks_playback previous_mode true left_in_ear right_in_ear in
    let now_blocked = wear_policy_blocks_playback new_mode true left_in_ear right_in_ear in
    if not state_valid
    then none
    else if not was_blocked && now_blocked
    then pause
    else if was_blocked && not now_blocked
    then resume
    else none

unfoldable pub wear_policy_fully_removed : Bool → Bool → Bool
wear_policy_fully_removed left_in_ear right_in_ear = not left_in_ear && not right_in_ear
