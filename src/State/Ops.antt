-- ===== src/State/Ops.antt =====
-- The operations on `AirPodsState`.
use earport_handoff.Base.{Bool, true, false, not, none, if◌then◌else◌}
use earport_handoff.Base.Int.{ℤ, pos, negsuc, ltb_ℤ}
use earport_handoff.Base.Text.{CString, is_nonempty}
use earport_handoff.State.Types.{
  AirPodsModel, model_unknown, NoiseControlMode, off, BatteryStatus, unknown, BatteryInfo,
  ListeningModesConfig, AirPodsState,
}

abbrev pub no_battery : BatteryInfo
no_battery = record { level = negsuc 0; status = unknown; available = false }

abbrev pub default_listening_modes : ListeningModesConfig
default_listening_modes = record {
  off_enabled = false;
  transparency_enabled = true;
  anc_enabled = true;
  adaptive_enabled = false;
}

-- `memset` clears what the assignments leave: the battery states and the ear pause mode.
unfoldable pub airpods_state_init : AirPodsState
airpods_state_init = record {
  connected = false;
  device_name = none;
  device_address = none;
  display_name = none;
  model = model_unknown;
  battery = record { left = no_battery; right = no_battery; case_battery = no_battery };
  noise_control_mode = off;
  conversational_awareness = false;
  adaptive_noise_level = pos 50;
  listening_modes = default_listening_modes;
  ear_detection = record { left_in_ear = false; right_in_ear = false };
  ear_pause_mode = pos 0;
}

unfoldable pub airpods_state_reset : AirPodsState → AirPodsState
airpods_state_reset state = record state {
  connected = false;
  device_name = none;
  device_address = none;
  display_name = none;
  model = model_unknown;
  battery = record { left = no_battery; right = no_battery; case_battery = no_battery };
  noise_control_mode = off;
  conversational_awareness = false;
  adaptive_noise_level = pos 50;
  listening_modes = default_listening_modes;
  ear_detection = record { left_in_ear = false; right_in_ear = false };
}

unfoldable pub airpods_state_set_device :
    AirPodsState → CString → CString → AirPodsModel → AirPodsState
airpods_state_set_device state name address model = record state {
  device_name = name;
  device_address = address;
  model = model;
  connected = true;
}

unfoldable pub airpods_state_set_display_name : AirPodsState → CString → AirPodsState
airpods_state_set_display_name state display_name = record state {
  display_name = if is_nonempty display_name then display_name else none;
}

-- `level >= 0`
abbrev pub is_available : ℤ → Bool
is_available level = not (ltb_ℤ level (pos 0))

abbrev pub battery_info : ℤ → BatteryStatus → BatteryInfo
battery_info level status = record {
  level = level;
  status = status;
  available = is_available level;
}

unfoldable pub airpods_state_set_battery :
    AirPodsState → ℤ → BatteryStatus → ℤ → BatteryStatus → ℤ → BatteryStatus → AirPodsState
airpods_state_set_battery state left left_status right right_status case_level case_status =
    record state {
      battery = record {
        left = battery_info left left_status;
        right = battery_info right right_status;
        case_battery = battery_info case_level case_status;
      };
    }

unfoldable pub airpods_state_set_noise_control : AirPodsState → NoiseControlMode → AirPodsState
airpods_state_set_noise_control state mode = record state { noise_control_mode = mode }

unfoldable pub airpods_state_set_ear_detection : AirPodsState → Bool → Bool → AirPodsState
airpods_state_set_ear_detection state left_in_ear right_in_ear = record state {
  ear_detection = record { left_in_ear = left_in_ear; right_in_ear = right_in_ear };
}

unfoldable pub airpods_state_set_conversational_awareness : AirPodsState → Bool → AirPodsState
airpods_state_set_conversational_awareness state enabled = record state {
  conversational_awareness = enabled;
}

-- `CLAMP(level, 0, 100)`
abbrev pub clamp_percent : ℤ → ℤ
clamp_percent level =
    if ltb_ℤ (pos 100) level then pos 100 else if ltb_ℤ level (pos 0) then pos 0 else level

unfoldable pub airpods_state_set_adaptive_noise_level : AirPodsState → ℤ → AirPodsState
airpods_state_set_adaptive_noise_level state level = record state {
  adaptive_noise_level = clamp_percent level;
}

unfoldable pub airpods_state_set_listening_modes :
    AirPodsState → Bool → Bool → Bool → Bool → AirPodsState
airpods_state_set_listening_modes state off_enabled transparency_enabled anc_enabled
      adaptive_enabled =
    record state {
      listening_modes = record {
        off_enabled = off_enabled;
        transparency_enabled = transparency_enabled;
        anc_enabled = anc_enabled;
        adaptive_enabled = adaptive_enabled;
      };
    }
