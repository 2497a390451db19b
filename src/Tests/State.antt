-- ===== src/Tests/State.antt =====
-- The state at concrete inputs.
use earport_handoff.Base.{◌≡◌, refl, some, List, [], ◌∷◌}
use earport_handoff.Base.Int.{pos, negsuc}
use earport_handoff.Base.Text.{codes}
use earport_handoff.Base.Trace.{run}
use earport_handoff.State.{
  model_pro_2, charging, discharging, unknown, airpods_state_init, airpods_state_get_display_name,
  airpods_model_to_string,
}
use earport_handoff.State.Valid.{
  Operation, set_device, set_battery, set_adaptive_noise_level, operate, IsValid,
  operations-IsValid,
}

abbrev session : List Operation
session =
    set_device (some (codes "Pods")) (some (codes "AA:BB")) model_pro_2
    ∷ set_battery (pos 80) discharging (pos 90) charging (negsuc 0) unknown
    ∷ set_adaptive_noise_level (pos 200)
    ∷ []

level-session : (run operate airpods_state_init session).adaptive_noise_level ≡ pos 100
unfolding operate airpods_state_init
level-session = refl

operations-IsValid_example : IsValid (run operate airpods_state_init session)
operations-IsValid_example = operations-IsValid session

name-session :
    airpods_state_get_display_name (run operate airpods_state_init session) ≡ codes "AirPods Pro 2"
unfolding operate airpods_state_init airpods_state_get_display_name airpods_model_to_string
name-session = refl
