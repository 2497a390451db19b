-- ===== src/Wear/Gate.antt =====
-- The policy's actions over every sequence of wear reports and mode changes, as
-- `media_control_on_ear_detection_changed` and `media_control_set_ear_pause_mode` of
-- daemon/src/media_control.c feed it while the link to the AirPods is active.
use earport_handoff.Base.{Bool, true, false, ◌≡◌, refl, List, [], ◌∷◌, arith}
use earport_handoff.Base.Trace.{run}
use earport_handoff.Wear.{
  EarPauseMode, WearPolicyAction, none, pause, resume, wear_policy_blocks_playback,
  wear_policy_transition, wear_policy_mode_change,
}
use earport_handoff.Wear.Edges.{edge, transition-eq-edge, mode_change-eq-edge}

-- The mode and the latest wear report, and whether the last action was a pause.
pub record Gate : Type 0 where
  pub mode : EarPauseMode
  pub valid : Bool
  pub left : Bool
  pub right : Bool
  pub paused : Bool

pub data GateEvent : Type 0 where
  report : Bool → Bool → GateEvent
  set_mode : EarPauseMode → GateEvent

abbrev pub apply : WearPolicyAction → Bool → Bool
apply pause paused = true
apply resume paused = false
apply none paused = paused

abbrev pub action : Gate → GateEvent → WearPolicyAction
action g (report l r) = wear_policy_transition g.mode g.valid g.left g.right l r
action g (set_mode m) = wear_policy_mode_change g.mode m g.valid g.left g.right

unfoldable pub gate_step : Gate → GateEvent → Gate
gate_step g (report l r) = record g {
  valid = true;
  left = l;
  right = r;
  paused = apply (action g (report l r)) g.paused;
}
gate_step g (set_mode m) = record g { mode = m; paused = apply (action g (set_mode m)) g.paused }

abbrev pub blocked : Gate → Bool
blocked g = wear_policy_blocks_playback g.mode g.valid g.left g.right

-- before the first wear report
abbrev pub unknown : EarPauseMode → Gate
unknown m = record { mode = m; valid = false; left = false; right = false; paused = false }

apply-edge : (was now : Bool) → apply (edge was now) was ≡ now
apply-edge true true = refl
apply-edge true false = refl
apply-edge false true = refl
apply-edge false false = refl

step_exact :
    (g : Gate) (e : GateEvent)
    → g.paused ≡ blocked g
    → (gate_step g e).paused ≡ blocked (gate_step g e)
unfolding gate_step
step_exact g (report l r) h = ground (
  arith,
  transition-eq-edge g.mode g.valid g.left g.right l r,
  apply-edge (blocked g) (wear_policy_blocks_playback g.mode true l r),
)
step_exact g (set_mode m) h = ground (
  arith,
  mode_change-eq-edge g.mode m g.valid g.left g.right,
  apply-edge (blocked g) (wear_policy_blocks_playback m g.valid g.left g.right),
)

run_exact :
    (es : List GateEvent) (g : Gate)
    → g.paused ≡ blocked g
    → (run gate_step g es).paused ≡ blocked (run gate_step g es)
run_exact [] g h = h
run_exact (e ∷ es) g h = run_exact es (gate_step g e) (step_exact g e h)

-- After any sequence of wear reports and mode changes from an unknown wear state: the policy
-- blocks playback now exactly if it has asked for a pause, and has not asked for a resume since.
pub run-paused-eq-blocked :
    (m : EarPauseMode) (es : List GateEvent)
    → let g = run gate_step (unknown m) es in g.paused ≡ blocked g
unfolding wear_policy_blocks_playback
run-paused-eq-blocked m es = run_exact es (unknown m) refl
