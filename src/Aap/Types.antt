-- ===== src/Aap/Types.antt =====
-- The constants and types of aap_protocol.h.
use earport_handoff.Base.{ℕ, Bool}
use earport_handoff.Base.Int.{ℤ}
use earport_handoff.Base.Text.{Bytes}
use earport_handoff.State.{BatteryStatus, NoiseControlMode}

-- opcodes
abbrev pub aap_opcode_battery : ℕ
aap_opcode_battery = 0x04

abbrev pub aap_opcode_ear_detection_request : ℕ
aap_opcode_ear_detection_request = 0x05

abbrev pub aap_opcode_ear_detection : ℕ
aap_opcode_ear_detection = 0x06

abbrev pub aap_opcode_control : ℕ
aap_opcode_control = 0x09

abbrev pub aap_opcode_audio_source : ℕ
aap_opcode_audio_source = 0x0e

abbrev pub aap_opcode_smart_routing_response : ℕ
aap_opcode_smart_routing_response = 0x11

abbrev pub aap_opcode_metadata : ℕ
aap_opcode_metadata = 0x1d

abbrev pub aap_opcode_ca_detection : ℕ
aap_opcode_ca_detection = 0x4b

-- control command identifiers
abbrev pub aap_ctrl_noise_control : ℕ
aap_ctrl_noise_control = 0x0d

abbrev pub aap_ctrl_owns_connection : ℕ
aap_ctrl_owns_connection = 0x06

abbrev pub aap_ctrl_listening_modes : ℕ
aap_ctrl_listening_modes = 0x1a

abbrev pub aap_ctrl_conv_awareness : ℕ
aap_ctrl_conv_awareness = 0x28

abbrev pub aap_ctrl_adaptive_level : ℕ
aap_ctrl_adaptive_level = 0x2e

pub data AapInitAction : Type 0 where
  nothing send_features request_notifications : AapInitAction

pub record AapInitState : Type 0 where
  pub features_sent : Bool
  pub notifications_requested : Bool

pub data AapParseResult : Type 0 where
  ok incomplete invalid_header unknown_opcode malformed : AapParseResult

pub data AapPacketType : Type 0 where
  unknown battery ear_detection audio_source ownership_release_request : AapPacketType
  noise_control conv_awareness ca_detection metadata listening_modes : AapPacketType

pub record AapBatteryData : Type 0 where
  pub left_level : ℤ
  pub right_level : ℤ
  pub case_level : ℤ
  pub left_status : BatteryStatus
  pub right_status : BatteryStatus
  pub case_status : BatteryStatus

pub record AapEarDetectionData : Type 0 where
  pub primary_in_ear : Bool
  pub secondary_in_ear : Bool

pub data AapAudioSourceType : Type 0 where
  no_source call media : AapAudioSourceType

pub record AapAudioSourceData : Type 0 where
  pub device_address : Bytes
  pub source_type : AapAudioSourceType

-- Each string is the bytes before its NUL.
pub record AapMetadata : Type 0 where
  pub device_name : Bytes
  pub model_number : Bytes
  pub manufacturer : Bytes

pub record AapListeningModes : Type 0 where
  pub off_enabled : Bool
  pub transparency_enabled : Bool
  pub anc_enabled : Bool
  pub adaptive_enabled : Bool
  pub raw_value : ℕ

-- the union `data` of the parse result, with the member that was written last
pub data AapPayload : Type 0 where
  unwritten : AapPayload
  battery : AapBatteryData → AapPayload
  ear_detection : AapEarDetectionData → AapPayload
  audio_source : AapAudioSourceData → AapPayload
  noise_control : NoiseControlMode → AapPayload
  conversational_awareness : Bool → AapPayload
  ca_volume_level : ℕ → AapPayload
  metadata : AapMetadata → AapPayload
  listening_modes : AapListeningModes → AapPayload

pub record AapParsedPacket : Type 0 where
  pub packet_type : AapPacketType
  pub payload : AapPayload
