-- ===== src/Aap/InBounds.antt =====
-- Where the parsers of packets read, and whether their loops end.
use earport_handoff.Base.{
  ℕ, zero, suc, ◌+◌, ◌-◌, ◌*◌, ◌≤◌, ◌<◌, ◌≢◌, refl, Option, none, some, [], length, drop, Returns,
  get_elem?-some, arith, ltb, inl, inr, Bool-cases, Option-cases,
}
use earport_handoff.Base.Text.{Bytes}
use earport_handoff.Aap.{
  Parsed, AapBatteryData, no_battery_data, AapPayload, AapParsedPacket, aap_has_valid_header,
  battery_components, read_battery, aap_parse_battery, aap_parse_ear_detection, contains_from,
  bounded_bytes_contain, release_marker, aap_parse_audio_source, aap_parse_noise_control,
  scan_string, put, aap_parse_metadata_string, parse_manufacturer, parse_model_number,
  aap_parse_metadata, parse_smart_routing_response, parse_control_packet, parse_ca_detection,
  parse_opcode, parse_body, aap_parse_packet, store, AapMetadata, no_metadata, set_type,
  AapPacketType,
}

header_ne_none : (input : Option Bytes) → aap_has_valid_header input ≢ none
unfolding aap_has_valid_header
header_ne_none none = ground arith
header_ne_none (some b) =
    ground (arith, get_elem?-some b 0, get_elem?-some b 1, get_elem?-some b 2, get_elem?-some b 3)

components_ne_none :
    (rounds : ℕ) (b : Bytes) (i : ℕ) (battery : AapBatteryData)
    → 7 + (i + rounds) * 5 ≤ length b
    → battery_components rounds b i battery ≢ none
unfolding battery_components
components_ne_none zero b i battery h = ground arith
components_ne_none (suc rounds) b i battery h =
    let (component, ec) = get_elem?-some b (7 + i * 5) (omega arith) in
    let (level, el) = get_elem?-some b (7 + i * 5 + 2) (omega arith) in
    let (status, es) = get_elem?-some b (7 + i * 5 + 3) (omega arith) in
    rw (ec, el, es) (components_ne_none rounds b (i + 1) _ (omega arith))

read_battery_ne_none : (n : ℕ) (b : Bytes) → 7 + n * 5 ≤ length b → read_battery n b ≢ none
unfolding read_battery
read_battery_ne_none n b h = ground (arith, components_ne_none n b 0 no_battery_data (omega arith))

battery_ne_none : (b : Bytes) → aap_parse_battery b ≢ none
unfolding aap_parse_battery
battery_ne_none b = elim (Bool-cases (ltb (length b) 12)) [
  | inl short ↦ rw short (λ e. cc)
  | inr long ↦
      let (opcode, e4) = get_elem?-some b 4 (ground arith) in
      let (second, e5) = get_elem?-some b 5 (ground arith) in
      let (n, e6) = get_elem?-some b 6 (ground arith) in
      rw (long, e4, e5, e6) (ground (arith, read_battery_ne_none n b))
]

ear_detection_ne_none : (b : Bytes) → aap_parse_ear_detection b ≢ none
unfolding aap_parse_ear_detection
ear_detection_ne_none b =
    ground (arith, get_elem?-some b 4, get_elem?-some b 5, get_elem?-some b 6, get_elem?-some b 7)

audio_source_ne_none : (b : Bytes) → aap_parse_audio_source b ≢ none
unfolding aap_parse_audio_source
audio_source_ne_none b = ground (arith, get_elem?-some b 4, get_elem?-some b 12)

noise_control_ne_none : (b : Bytes) → aap_parse_noise_control b ≢ none
unfolding aap_parse_noise_control
noise_control_ne_none b = ground (arith, get_elem?-some b 4, get_elem?-some b 6, get_elem?-some b 7)

contains_ne_none :
    (rounds : ℕ) (b needle : Bytes) (offset : ℕ)
    → offset + rounds + length needle ≤ length b + 1
    → contains_from rounds b needle offset ≢ none
unfolding contains_from
contains_ne_none zero b needle offset h = ground arith
contains_ne_none (suc rounds) b needle offset h =
    ground (arith, contains_ne_none rounds b needle (offset + 1) (omega arith))

pub bounded_ne_none : (b needle : Bytes) → bounded_bytes_contain b needle ≢ none
unfolding bounded_bytes_contain
bounded_ne_none b needle =
    ground (arith, contains_ne_none (length b - length needle + 1) b needle 0)

scan_ne_none :
    (fuel : ℕ) (b : Bytes) (position size : ℕ) (out : Bytes)
    → length b < position + fuel
    → 0 < fuel
    → scan_string fuel b position size out ≢ none
unfolding scan_string
scan_ne_none zero b position size out h p = elim p [ ]
scan_ne_none (suc fuel) b position size out h p = elim (Bool-cases (ltb position (length b))) [
  | inl more ↦
      let (c, e) = get_elem?-some b position (ground arith) in
      rw (more, e) (ground (arith, scan_ne_none fuel b (position + 1) size (put size out c)))
  | inr done ↦ rw done (λ e. cc)
]

string_ne_none : (b : Bytes) (position size : ℕ) → aap_parse_metadata_string b position size ≢ none
unfolding aap_parse_metadata_string
string_ne_none b position size =
    ground
      (arith, scan_ne_none (length b - position + 1) b position size [] (omega arith) (omega arith))

manufacturer_ne_none : (b : Bytes) (p : ℕ) (m : AapMetadata) → parse_manufacturer b p m ≢ none
unfolding parse_manufacturer
manufacturer_ne_none b p m = elim (Option-cases (aap_parse_metadata_string b p 32)) [
  | inl e ↦ absurd (string_ne_none b p 32 e)
  | inr (a, e) ↦ rw e (λ x. cc)
]

model_number_ne_none : (b : Bytes) (p : ℕ) (m : AapMetadata) → parse_model_number b p m ≢ none
unfolding parse_model_number
model_number_ne_none b p m = elim (Option-cases (aap_parse_metadata_string b p 16)) [
  | inl e ↦ absurd (string_ne_none b p 16 e)
  | inr (a, e) ↦ rw e (ground (arith, manufacturer_ne_none b a.1 (record m { model_number = a.2 })))
]

metadata_ne_none : (b : Bytes) → aap_parse_metadata b ≢ none
unfolding aap_parse_metadata
metadata_ne_none b = elim (Option-cases (aap_parse_metadata_string b 12 64)) [
  | inl e ↦ absurd (string_ne_none b 12 64 e)
  | inr (a, e) ↦
      rw e (ground (arith, model_number_ne_none b a.1 (record no_metadata { device_name = a.2 })))
]

store_ne_none :
    {A : Type 0} (member : A → AapPayload) (r : AapParsedPacket) (parsed : Parsed A)
    → parsed ≢ none
    → store member r parsed ≢ none
store_ne_none member r none h = absurd (h refl)
store_ne_none member r (some a) h = λ e. cc

smart_routing_ne_none : (b : Bytes) (r : AapParsedPacket) → parse_smart_routing_response b r ≢ none
unfolding parse_smart_routing_response
smart_routing_ne_none b r = ground (arith, bounded_ne_none (drop 6 b) release_marker)

control_ne_none : (b : Bytes) (r : AapParsedPacket) → parse_control_packet b r ≢ none
unfolding parse_control_packet
control_ne_none b r =
    ground (arith, get_elem?-some b 6, get_elem?-some b 7, noise_control_ne_none b)

ca_detection_ne_none : (b : Bytes) (r : AapParsedPacket) → parse_ca_detection b r ≢ none
unfolding parse_ca_detection
ca_detection_ne_none b r = ground (arith, get_elem?-some b 9)

opcode_ne_none : (opcode : ℕ) (b : Bytes) (r : AapParsedPacket) → parse_opcode opcode b r ≢ none
unfolding parse_opcode
opcode_ne_none opcode b r = ground (
  arith,
  battery_ne_none b,
  ear_detection_ne_none b,
  audio_source_ne_none b,
  smart_routing_ne_none b r,
  control_ne_none b r,
  ca_detection_ne_none b (set_type AapPacketType.ca_detection r),
  metadata_ne_none b,
)

body_ne_none : (b : Bytes) (r : AapParsedPacket) → parse_body b r ≢ none
unfolding parse_body
body_ne_none b r = elim (Bool-cases (ltb (length b) 5)) [
  | inl short ↦ rw short (λ e. cc)
  | inr long ↦
      let (opcode, e) = get_elem?-some b 4 (ground arith) in
      rw (long, e) (opcode_ne_none opcode b (set_type AapPacketType.unknown r))
]

packet_ne_none : (input : Option Bytes) (r : AapParsedPacket) → aap_parse_packet input r ≢ none
unfolding aap_parse_packet
packet_ne_none none r = ground (arith, header_ne_none none)
packet_ne_none (some b) r = ground (arith, header_ne_none (some b), body_ne_none b r)

-- On every input, of any length and any bytes, and on NULL, and whatever its result held before:
-- `aap_parse_packet` returns, with no read past the end of the input.
pub parse_packet-Returns :
    (input : Option Bytes) (r : AapParsedPacket) → Returns (aap_parse_packet input r)
parse_packet-Returns input r = elim (Option-cases (aap_parse_packet input r)) [
  | inl e ↦ absurd (packet_ne_none input r e)
  | inr found ↦ found
]
