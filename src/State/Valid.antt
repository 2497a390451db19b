-- ===== src/State/Valid.antt =====
-- What holds of the state after any sequence of its operations.
use earport_handoff.Base.{
  ◌≡◌, refl, ap, ◌∙◌, Bool, false, none, some, List, [], ◌∷◌, arith, if◌then◌else◌,
}
use earport_handoff.Base.Int.{ℤ, pos, ◌≤ℤ◌}
use earport_handoff.Base.Text.{CString, is_nonempty}
use earport_handoff.Base.Trace.{run}
use earport_handoff.State.{
  AirPodsModel, model_unknown, NoiseControlMode, BatteryStatus, BatteryInfo, AirPodsState,
  airpods_state_init, airpods_state_reset, airpods_state_set_device, airpods_state_set_display_name,
  airpods_state_set_battery, airpods_state_set_noise_control, airpods_state_set_ear_detection,
  airpods_state_set_conversational_awareness, airpods_state_set_adaptive_noise_level,
  airpods_state_set_listening_modes, is_available,
}

-- one operation with its arguments
pub data Operation : Type 0 where
  reset : Operation
  set_device : CString → CString → AirPodsModel → Operation
  set_display_name : CString → Operation
  set_battery : ℤ → BatteryStatus → ℤ → BatteryStatus → ℤ → BatteryStatus → Operation
  set_noise_control : NoiseControlMode → Operation
  set_ear_detection : Bool → Bool → Operation
  set_conversational_awareness : Bool → Operation
  set_adaptive_noise_level : ℤ → Operation
  set_listening_modes : Bool → Bool → Bool → Bool → Operation

unfoldable pub operate : AirPodsState → Operation → AirPodsState
unfolding airpods_state_reset airpods_state_set_device airpods_state_set_display_name
    airpods_state_set_battery airpods_state_set_noise_control airpods_state_set_ear_detection
    airpods_state_set_conversational_awareness airpods_state_set_adaptive_noise_level
    airpods_state_set_listening_modes
operate s reset = airpods_state_reset s
operate s (set_device name address model) = airpods_state_set_device s name address model
operate s (set_display_name name) = airpods_state_set_display_name s name
operate s (set_battery l ls r rs c cs) = airpods_state_set_battery s l ls r rs c cs
operate s (set_noise_control mode) = airpods_state_set_noise_control s mode
operate s (set_ear_detection l r) = airpods_state_set_ear_detection s l r
operate s (set_conversational_awareness e) = airpods_state_set_conversational_awareness s e
operate s (set_adaptive_noise_level level) = airpods_state_set_adaptive_noise_level s level
operate s (set_listening_modes o t a d) = airpods_state_set_listening_modes s o t a d

abbrev pub Agrees : BatteryInfo → Type 0
Agrees b = b.available ≡ is_available b.level

pub record IsValid (s : AirPodsState) : Type 0 where
  pub left_agrees : Agrees s.battery.left
  pub right_agrees : Agrees s.battery.right
  pub case_agrees : Agrees s.battery.case_battery
  pub level_low : pos 0 ≤ℤ s.adaptive_noise_level
  pub level_high : s.adaptive_noise_level ≤ℤ pos 100
  pub display_name_ne_nil :
      s.display_name ≡ (if is_nonempty s.display_name then s.display_name else none)
  -- While no device is connected, the model is unknown.
  pub model_of_device : s.connected ≡ false → s.model ≡ model_unknown

init-IsValid : IsValid airpods_state_init
unfolding airpods_state_init
init-IsValid = ground arith

operate-IsValid : (s : AirPodsState) (o : Operation) → IsValid s → IsValid (operate s o)
unfolding operate
operate-IsValid s reset v = ground arith
operate-IsValid s (set_display_name none) v = ground arith
operate-IsValid s (set_display_name (some [])) v = ground arith
operate-IsValid s (set_display_name (some (c ∷ cs))) v = ground arith
operate-IsValid s o v = ground arith

run-IsValid : (os : List Operation) (s : AirPodsState) → IsValid s → IsValid (run operate s os)
run-IsValid [] s v = v
run-IsValid (o ∷ os) s v = run-IsValid os (operate s o) (operate-IsValid s o v)

-- After any operations on a new state: each battery is available exactly if its level is not
-- negative, the noise level is from 0 to 100, a display name that is set is not empty, and a
-- state that is not connected has no model.
pub operations-IsValid : (os : List Operation) → IsValid (run operate airpods_state_init os)
operations-IsValid os = run-IsValid os airpods_state_init init-IsValid

ear_pause_mode-operate :
    (s : AirPodsState) (o : Operation) → (operate s o).ear_pause_mode ≡ s.ear_pause_mode
unfolding operate
ear_pause_mode-operate s reset = refl
ear_pause_mode-operate s o = refl

-- A reset after any operations gives the new state back, but for the ear pause mode, which none
-- of the operations changes.
pub reset_restores :
    (os : List Operation) (s : AirPodsState)
    → (airpods_state_reset (run operate s os)
        ≡ record airpods_state_init { ear_pause_mode = s.ear_pause_mode })
unfolding airpods_state_reset airpods_state_init
reset_restores [] s = refl
reset_restores (o ∷ os) s =
    reset_restores os (operate s o)
    ∙ ap (λ m. record airpods_state_init { ear_pause_mode = m }) (ear_pause_mode-operate s o)
