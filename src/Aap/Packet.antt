-- ===== src/Aap/Packet.antt =====
-- The dispatch on the opcode and on the control identifier.
use Prim.Native.Nat.{bit_and}
use earport_handoff.Base.{
  ℕ, Bool, not, Option, none, some, byte, ◌>>=◌, length, drop, ltb, ◌==◌, if◌then◌else◌,
}
use earport_handoff.Base.Text.{Bytes}
use earport_handoff.Aap.Types.{
  aap_opcode_battery, aap_opcode_ear_detection, aap_opcode_control, aap_opcode_audio_source,
  aap_opcode_smart_routing_response, aap_opcode_metadata, aap_opcode_ca_detection,
  aap_ctrl_noise_control, aap_ctrl_listening_modes, aap_ctrl_conv_awareness, AapParseResult, ok,
  incomplete, invalid_header, unknown_opcode, AapPacketType, AapListeningModes, AapPayload,
  AapParsedPacket,
}
use earport_handoff.Aap.Fields.{
  Parsed, aap_has_valid_header, aap_parse_battery, aap_parse_ear_detection, bounded_bytes_contain,
  release_marker, aap_parse_audio_source, aap_parse_noise_control,
}
use earport_handoff.Aap.Metadata.{aap_parse_metadata}

-- the code, and the packet as it is left
abbrev pub Outcome : Type 0
Outcome = Option (AapParseResult × AapParsedPacket)

-- `result->type = packet_type`
abbrev pub set_type : AapPacketType → AapParsedPacket → AapParsedPacket
set_type packet_type result = record result { packet_type = packet_type }

-- what a parser of a member of the union leaves
abbrev pub written {ℓ} :
    {A : Type ℓ} → (A → AapPayload) → AapParsedPacket → Option A → AapParsedPacket
written member result none = result
written member result (some a) = record result { payload = member a }

abbrev pub store : {A : Type 0} → (A → AapPayload) → AapParsedPacket → Parsed A → Outcome
store member result parsed = parsed >>= λ out. some (out.0, written member result out.1)

unfoldable pub parse_smart_routing_response : Bytes → AapParsedPacket → Outcome
parse_smart_routing_response buffer result =
    let body : Outcome = bounded_bytes_contain (drop 6 buffer) release_marker >>= λ found.
    some (ok, if found then set_type AapPacketType.ownership_release_request result else result) in
    if ltb (length buffer) 6 then some (incomplete, result) else body

-- `(modes & mask) != 0`
abbrev pub has_mode : ℕ → ℕ → Bool
has_mode modes mask = not (bit_and modes mask == 0)

unfoldable pub listening_modes_of_byte : ℕ → AapListeningModes
listening_modes_of_byte modes = record {
  off_enabled = has_mode modes 0x01;
  transparency_enabled = has_mode modes 0x04;
  anc_enabled = has_mode modes 0x02;
  adaptive_enabled = has_mode modes 0x08;
  raw_value = modes;
}

unfoldable pub parse_control_packet : Bytes → AapParsedPacket → Outcome
unfolding listening_modes_of_byte
parse_control_packet buffer result =
    let noise_result = set_type AapPacketType.noise_control result in
    let noise = store AapPayload.noise_control noise_result (aap_parse_noise_control buffer) in
    let body : Outcome = byte buffer 6 >>= λ ctrl_id. byte buffer 7 >>= λ value.
    if ctrl_id == aap_ctrl_noise_control
    then noise
    else if ctrl_id == aap_ctrl_conv_awareness
    then some (
      ok,
      record {
        packet_type = AapPacketType.conv_awareness;
        payload = AapPayload.conversational_awareness (value == 0x01);
      },
    )
    else if ctrl_id == aap_ctrl_listening_modes
    then some (
      ok,
      record {
        packet_type = AapPacketType.listening_modes;
        payload = AapPayload.listening_modes (listening_modes_of_byte value);
      },
    )
    else some (ok, set_type AapPacketType.unknown result) in
    if ltb (length buffer) 8 then some (incomplete, result) else body

unfoldable pub parse_ca_detection : Bytes → AapParsedPacket → Outcome
parse_ca_detection buffer result =
    let body : Outcome = byte buffer 9 >>= λ level.
    some (ok, record result { payload = AapPayload.ca_volume_level level }) in
    if ltb (length buffer) 10 then some (incomplete, result) else body

-- the `switch` on the opcode
unfoldable pub parse_opcode : ℕ → Bytes → AapParsedPacket → Outcome
unfolding parse_smart_routing_response parse_control_packet parse_ca_detection
parse_opcode opcode buffer result =
    if opcode == aap_opcode_battery
    then store AapPayload.battery (set_type AapPacketType.battery result) (aap_parse_battery buffer)
    else if opcode == aap_opcode_ear_detection
    then store AapPayload.ear_detection (set_type AapPacketType.ear_detection result)
        (aap_parse_ear_detection buffer)
    else if opcode == aap_opcode_audio_source
    then store AapPayload.audio_source (set_type AapPacketType.audio_source result)
        (aap_parse_audio_source buffer)
    else if opcode == aap_opcode_smart_routing_response
    then parse_smart_routing_response buffer result
    else if opcode == aap_opcode_control
    then parse_control_packet buffer result
    else if opcode == aap_opcode_ca_detection
    then parse_ca_detection buffer (set_type AapPacketType.ca_detection result)
    else if opcode == aap_opcode_metadata
    then store AapPayload.metadata (set_type AapPacketType.metadata result)
        (aap_parse_metadata buffer)
    else some (unknown_opcode, result)

unfoldable pub parse_body : Bytes → AapParsedPacket → Outcome
unfolding parse_opcode
parse_body buffer result =
    let body : Outcome = byte buffer 4 >>= λ opcode.
    parse_opcode opcode buffer (set_type AapPacketType.unknown result) in
    if ltb (length buffer) 5 then some (incomplete, result) else body

-- the test of the header, and the rest behind it; NULL has no valid header
abbrev pub with_buffer : Option Bytes → AapParsedPacket → Outcome
with_buffer none result = some (invalid_header, result)
with_buffer (some buffer) result = parse_body buffer result

unfoldable pub aap_parse_packet : Option Bytes → AapParsedPacket → Outcome
unfolding aap_has_valid_header parse_body
aap_parse_packet input result = aap_has_valid_header input >>= λ valid.
    if valid then with_buffer input result else some (invalid_header, result)
