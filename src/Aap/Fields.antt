-- ===== src/Aap/Fields.antt =====
-- The parsers of single packets. Each returns its code and what it wrote to its output, `none` if
-- it wrote nothing.
use earport_handoff.Base.{
  ℕ, zero, suc, ◌+◌, ◌-◌, ◌*◌, Bool, true, false, not, ◌&&◌, ◌||◌, Option, none, some, byte, slice,
  ◌>>=◌, length, bytes_equal, ltb, leb, ◌==◌, if◌then◌else◌,
}
use earport_handoff.Base.Int.{ℤ, pos, negsuc}
use earport_handoff.Base.Text.{Bytes, codes}
use earport_handoff.State.{
  BatteryStatus, unknown, charging, discharging, disconnected, NoiseControlMode, off, anc,
  transparency, adaptive,
}
use earport_handoff.Aap.Types.{
  aap_opcode_battery, aap_opcode_ear_detection, aap_opcode_control, aap_opcode_audio_source,
  aap_ctrl_noise_control, AapParseResult, ok, incomplete, malformed, AapBatteryData,
  AapEarDetectionData, AapAudioSourceType, no_source, call, media, AapAudioSourceData,
}

-- the code, and what was written
abbrev pub Parsed : Type 0 → Type 0
Parsed A = Option (AapParseResult × Option A)

-- `aap_has_valid_header`; four bytes are there when they are read
unfoldable pub aap_has_valid_header : Option Bytes → Option Bool
aap_has_valid_header none = some false
aap_has_valid_header (some buffer) =
    let test : Option Bool = byte buffer 0 >>= λ b0. byte buffer 1 >>= λ b1. byte buffer 2 >>= λ b2.
    byte buffer 3 >>= λ b3. some (b0 == 0x04 && b1 == 0x00 && b2 == 0x04 && b3 == 0x00) in
    if ltb (length buffer) 4 then some false else test

unfoldable pub aap_get_opcode : Option Bytes → Option ℕ
aap_get_opcode none = some 0
aap_get_opcode (some buffer) =
    let opcode = byte buffer 4 in if ltb (length buffer) 5 then some 0 else opcode

abbrev pub no_battery_data : AapBatteryData
no_battery_data = record {
  left_level = negsuc 0;
  right_level = negsuc 0;
  case_level = negsuc 0;
  left_status = unknown;
  right_status = unknown;
  case_status = unknown;
}

unfoldable pub battery_status : ℕ → BatteryStatus
battery_status status =
    if status == 0x01
    then charging
    else if status == 0x02
    then discharging
    else if status == 0x04
    then disconnected
    else unknown

-- `(level <= 100) ? (int8_t)level : -1`
unfoldable pub battery_level : ℕ → ℤ
battery_level level = if leb level 100 then pos level else negsuc 0

-- the `switch` on the component; a single battery is stored on the left
unfoldable pub store_battery : AapBatteryData → ℕ → ℤ → BatteryStatus → AapBatteryData
store_battery battery component level status =
    if component == 0x01 || component == 0x04
    then record battery { left_level = level; left_status = status }
    else if component == 0x02
    then record battery { right_level = level; right_status = status }
    else if component == 0x08
    then record battery { case_level = level; case_status = status }
    else battery

-- the `for` loop: the rounds left, and `i`
unfoldable pub battery_components : ℕ → Bytes → ℕ → AapBatteryData → Option AapBatteryData
battery_components zero buffer i battery = some battery
battery_components (suc rounds) buffer i battery = do
  component ← byte buffer (7 + i * 5)
  level ← byte buffer (7 + i * 5 + 2)
  status ← byte buffer (7 + i * 5 + 3)
  battery_components rounds buffer (i + 1)
      (store_battery battery component (battery_level level) (battery_status status))

-- the loop, and the result after it
unfoldable pub read_battery : ℕ → Bytes → Parsed AapBatteryData
unfolding battery_components
read_battery count buffer =
    battery_components count buffer 0 no_battery_data >>= λ battery. some (ok, some battery)

unfoldable pub aap_parse_battery : Bytes → Parsed AapBatteryData
unfolding read_battery
aap_parse_battery buffer =
    let body : Parsed AapBatteryData = byte buffer 4 >>= λ opcode. byte buffer 5 >>= λ second.
    byte buffer 6 >>= λ count.
    if not (opcode == aap_opcode_battery) || not (second == 0x00)
    then some (malformed, none)
    else if count == 0 || ltb 3 count
    then some (malformed, none)
    else if ltb (length buffer) (7 + count * 5)
    then some (incomplete, none)
    else read_battery count buffer in
    if ltb (length buffer) 12 then some (incomplete, none) else body

unfoldable pub ear_status_is_valid : ℕ → Bool
ear_status_is_valid status = status == 0x00 || status == 0x01 || status == 0x02 || status == 0x03

unfoldable pub aap_parse_ear_detection : Bytes → Parsed AapEarDetectionData
unfolding ear_status_is_valid
aap_parse_ear_detection buffer =
    let body : Parsed AapEarDetectionData = byte buffer 4 >>= λ opcode. byte buffer 5 >>= λ second.
    byte buffer 6 >>= λ primary. byte buffer 7 >>= λ secondary.
    if not (opcode == aap_opcode_ear_detection) || not (second == 0x00)
    then some (malformed, none)
    else if not (ear_status_is_valid primary) || not (ear_status_is_valid secondary)
    then some (malformed, none)
    else some (
      ok,
      some (record { primary_in_ear = primary == 0x00; secondary_in_ear = secondary == 0x00 }),
    ) in
    if ltb (length buffer) 8 then some (incomplete, none) else body

-- the loop over the offsets: the rounds left, and the offset
unfoldable pub contains_from : ℕ → Bytes → Bytes → ℕ → Option Bool
contains_from zero buffer needle offset = some false
contains_from (suc rounds) buffer needle offset =
    let rest = contains_from rounds buffer needle (offset + 1) in
    slice buffer offset (length needle) >>= λ here.
    if bytes_equal here needle then some true else rest

unfoldable pub bounded_bytes_contain : Bytes → Bytes → Option Bool
unfolding contains_from
bounded_bytes_contain buffer needle =
    let search = contains_from (length buffer - length needle + 1) buffer needle 0 in
    if length needle == 0 || ltb (length buffer) (length needle) then some false else search

abbrev pub release_marker : Bytes
release_marker = codes "SetOwnershipToFalse"

-- the cast of a source type that is at most 2
abbrev pub audio_source_type : ℕ → AapAudioSourceType
audio_source_type t = if t == 0 then no_source else if t == 1 then call else media

unfoldable pub aap_parse_audio_source : Bytes → Parsed AapAudioSourceData
aap_parse_audio_source buffer =
    let body : Parsed AapAudioSourceData = byte buffer 4 >>= λ opcode. byte buffer 12 >>= λ kind.
    slice buffer 6 6 >>= λ address.
    if not (opcode == aap_opcode_audio_source)
    then some (malformed, none)
    else if ltb 2 kind
    then some (malformed, none)
    else some
        (ok, some (record { device_address = address; source_type = audio_source_type kind })) in
    if ltb (length buffer) 13 then some (incomplete, none) else body

unfoldable pub noise_control_of_byte : ℕ → NoiseControlMode
noise_control_of_byte mode_byte =
    if mode_byte == 0x01
    then off
    else if mode_byte == 0x02
    then anc
    else if mode_byte == 0x03
    then transparency
    else if mode_byte == 0x04
    then adaptive
    else off

unfoldable pub aap_parse_noise_control : Bytes → Parsed NoiseControlMode
unfolding noise_control_of_byte
aap_parse_noise_control buffer =
    let body : Parsed NoiseControlMode = byte buffer 4 >>= λ opcode. byte buffer 6 >>= λ control.
    byte buffer 7 >>= λ mode_byte.
    if not (opcode == aap_opcode_control) || not (control == aap_ctrl_noise_control)
    then some (malformed, none)
    else some (ok, some (noise_control_of_byte mode_byte)) in
    if ltb (length buffer) 8 then some (incomplete, none) else body
