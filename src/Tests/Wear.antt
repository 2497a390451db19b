-- ===== src/Tests/Wear.antt =====
-- The wear policy at concrete inputs.
use earport_handoff.Base.{true, false, ◌≡◌, refl, List, [], ◌∷◌}
use earport_handoff.Base.Trace.{run}
use earport_handoff.Wear.{one_out, both_out, wear_policy_blocks_playback, wear_policy_transition}
use earport_handoff.Wear.Gate.{
  GateEvent, report, set_mode, gate_step, blocked, unknown, run-paused-eq-blocked,
}

-- The left one is taken out, the mode changed to both out and back, and the left one put in.
abbrev evening : List GateEvent
evening =
    report true true
    ∷ report false true
    ∷ set_mode both_out
    ∷ set_mode one_out
    ∷ report true true
    ∷ []

paused_in_evening :
    (run gate_step (unknown one_out) (report true true ∷ report false true ∷ [])).paused ≡ true
unfolding gate_step wear_policy_transition wear_policy_blocks_playback
paused_in_evening = refl

run-paused-eq-blocked_example :
    (run gate_step (unknown one_out) evening).paused
    ≡ blocked (run gate_step (unknown one_out) evening)
run-paused-eq-blocked_example = run-paused-eq-blocked one_out evening
