-- ===== src/Aap/Build.antt =====
-- The commands that the daemon sends.
use earport_handoff.Base.{ℕ, Bool, [], ◌∷◌, if◌then◌else◌}
use earport_handoff.Base.Int.{ℤ, pos, ltb_ℤ, pos_part}
use earport_handoff.Base.Text.{Bytes}
use earport_handoff.State.{NoiseControlMode, off, anc, transparency, adaptive}
use earport_handoff.Aap.Types.{
  aap_opcode_control, aap_opcode_ear_detection_request, aap_ctrl_noise_control,
  aap_ctrl_owns_connection, aap_ctrl_listening_modes, aap_ctrl_conv_awareness,
  aap_ctrl_adaptive_level,
}

unfoldable pub aap_pkt_handshake : Bytes
aap_pkt_handshake =
    0x00 ∷ 0x00 ∷ 0x04 ∷ 0x00 ∷ 0x01 ∷ 0x00 ∷ 0x02 ∷ 0x00 ∷ 0x00 ∷ 0x00 ∷ 0x00 ∷ 0x00 ∷ 0x00 ∷ 0x00
    ∷ 0x00 ∷ 0x00 ∷ []

unfoldable pub aap_pkt_request_notifications : Bytes
aap_pkt_request_notifications =
    0x04 ∷ 0x00 ∷ 0x04 ∷ 0x00 ∷ 0x0f ∷ 0x00 ∷ 0xff ∷ 0xff ∷ 0xff ∷ 0xff ∷ []

unfoldable pub aap_pkt_request_ear_detection : Bytes
aap_pkt_request_ear_detection =
    0x04 ∷ 0x00 ∷ 0x04 ∷ 0x00 ∷ aap_opcode_ear_detection_request ∷ 0x00 ∷ []

unfoldable pub aap_pkt_set_features : Bytes
aap_pkt_set_features =
    0x04 ∷ 0x00 ∷ 0x04 ∷ 0x00 ∷ 0x4d ∷ 0x00 ∷ 0xff ∷ 0x00 ∷ 0x00 ∷ 0x00 ∷ 0x00 ∷ 0x00 ∷ 0x00 ∷ 0x00
    ∷ []

-- the eleven bytes of a control command
abbrev pub control_cmd : ℕ → ℕ → Bytes
control_cmd identifier value =
    0x04 ∷ 0x00 ∷ 0x04 ∷ 0x00 ∷ aap_opcode_control ∷ 0x00 ∷ identifier ∷ value ∷ 0x00 ∷ 0x00 ∷ 0x00
    ∷ []

unfoldable pub aap_build_noise_control_cmd : NoiseControlMode → Bytes
aap_build_noise_control_cmd anc = control_cmd aap_ctrl_noise_control 0x02
aap_build_noise_control_cmd transparency = control_cmd aap_ctrl_noise_control 0x03
aap_build_noise_control_cmd adaptive = control_cmd aap_ctrl_noise_control 0x04
aap_build_noise_control_cmd off = control_cmd aap_ctrl_noise_control 0x01

-- `(uint8_t)(level < 0 ? 0 : (level > 100 ? 100 : level))`
unfoldable pub aap_build_adaptive_level_cmd : ℤ → Bytes
aap_build_adaptive_level_cmd level =
    control_cmd aap_ctrl_adaptive_level
      (if ltb_ℤ level (pos 0) then 0 else if ltb_ℤ (pos 100) level then 100 else pos_part level)

unfoldable pub aap_build_conv_awareness_cmd : Bool → Bytes
aap_build_conv_awareness_cmd enable =
    control_cmd aap_ctrl_conv_awareness (if enable then 0x01 else 0x02)

unfoldable pub aap_build_owns_connection_cmd : Bool → Bytes
aap_build_owns_connection_cmd claim =
    control_cmd aap_ctrl_owns_connection (if claim then 0x01 else 0x00)

unfoldable pub aap_build_listening_modes_cmd : ℕ → Bytes
aap_build_listening_modes_cmd modes = control_cmd aap_ctrl_listening_modes modes
