-- ===== src/State/Types.antt =====
-- The types of airpods_state.h.
use earport_handoff.Base.{ℕ, Bool}
use earport_handoff.Base.Int.{ℤ}
use earport_handoff.Base.Text.{CString}

pub data AirPodsModel : Type 0 where
  model_unknown model_1 model_2 model_3 model_4 model_4_anc : AirPodsModel
  model_pro model_pro_2 model_pro_2_usbc model_pro_3 : AirPodsModel
  model_max model_max_usbc model_max_2 : AirPodsModel

-- the value of the enumerator, the identifier in a BLE advertisement
abbrev pub model_value : AirPodsModel → ℕ
model_value model_unknown = 0
model_value model_1 = 0x0220
model_value model_2 = 0x0f20
model_value model_3 = 0x1320
model_value model_4 = 0x1920
model_value model_4_anc = 0x1b20
model_value model_pro = 0x0e20
model_value model_pro_2 = 0x1420
model_value model_pro_2_usbc = 0x2420
model_value model_pro_3 = 0x2027
model_value model_max = 0x0a20
model_value model_max_usbc = 0x1f20
model_value model_max_2 = 0x2d20

pub data NoiseControlMode : Type 0 where
  off anc transparency adaptive : NoiseControlMode

pub data BatteryStatus : Type 0 where
  unknown charging discharging disconnected : BatteryStatus

-- `level` is 0 to 100, or -1 where it is not available.
pub record BatteryInfo : Type 0 where
  pub level : ℤ
  pub status : BatteryStatus
  pub available : Bool

pub record BatteryState : Type 0 where
  pub left : BatteryInfo
  pub right : BatteryInfo
  pub case_battery : BatteryInfo

pub record EarDetectionState : Type 0 where
  pub left_in_ear : Bool
  pub right_in_ear : Bool

pub record ListeningModesConfig : Type 0 where
  pub off_enabled : Bool
  pub transparency_enabled : Bool
  pub anc_enabled : Bool
  pub adaptive_enabled : Bool

pub record AirPodsState : Type 0 where
  pub connected : Bool
  pub device_name : CString
  pub device_address : CString
  pub display_name : CString
  pub model : AirPodsModel
  pub battery : BatteryState
  pub noise_control_mode : NoiseControlMode
  pub conversational_awareness : Bool
  pub adaptive_noise_level : ℤ
  pub listening_modes : ListeningModesConfig
  pub ear_detection : EarDetectionState
  pub ear_pause_mode : ℤ
