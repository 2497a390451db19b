-- ===== src/Wear/Edges.antt =====
-- Both policy functions against the test that blocks playback.
use earport_handoff.Base.{Bool, true, false, ◌≡◌, arith}
use earport_handoff.Wear.{
  EarPauseMode, disabled, one_out, both_out, WearPolicyAction, none, pause, resume,
  wear_policy_blocks_playback, wear_policy_transition, wear_policy_mode_change,
}

-- The action that takes playback from blocked or not to blocked or not.
abbrev pub edge : Bool → Bool → WearPolicyAction
edge false true = pause
edge true false = resume
edge _ _ = none

-- For every mode and every two wear states, the earlier one known or not: the action pauses
-- exactly when playback becomes blocked, resumes exactly when it ceases to be, and is none
-- otherwise; an unknown earlier state counts as not blocked.
pub transition-eq-edge :
    (mode : EarPauseMode) (previous_valid previous_left previous_right left right : Bool)
    → wear_policy_transition mode previous_valid previous_left previous_right left right
      ≡ edge
          (wear_policy_blocks_playback mode previous_valid previous_left previous_right)
          (wear_policy_blocks_playback mode true left right)
unfolding wear_policy_transition wear_policy_blocks_playback
transition-eq-edge disabled pv pl pr l r = ground arith
transition-eq-edge one_out pv pl pr l r = ground arith
transition-eq-edge both_out pv pl pr l r = ground arith

-- For every two modes and every wear state, known or not: the action pauses exactly when the
-- change of mode blocks playback, resumes exactly when it ends the block, and is none otherwise.
pub mode_change-eq-edge :
    (previous_mode new_mode : EarPauseMode) (valid left right : Bool)
    → wear_policy_mode_change previous_mode new_mode valid left right
      ≡ edge
          (wear_policy_blocks_playback previous_mode valid left right)
          (wear_policy_blocks_playback new_mode valid left right)
unfolding wear_policy_mode_change wear_policy_blocks_playback
mode_change-eq-edge m disabled v l r = ground arith
mode_change-eq-edge m one_out v l r = ground arith
mode_change-eq-edge m both_out v l r = ground arith
