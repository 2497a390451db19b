-- ===== src/Aap/Commands.antt =====
-- The commands, against the parser of the packets that arrive.
use earport_handoff.Base.{ℕ, ◌≤◌, ◌≡◌, refl, Bool, true, false, some, arith, byte, if◌then◌else◌}
use earport_handoff.Base.Int.{ℤ, pos, pos_part, ltb_ℤ}
use earport_handoff.State.{NoiseControlMode, off, clamp_percent}
use earport_handoff.Aap.{
  ok, AapPacketType, AapPayload, AapParsedPacket, aap_parse_packet, aap_parse_noise_control,
  listening_modes_of_byte, set_type, aap_build_noise_control_cmd, aap_build_adaptive_level_cmd,
  aap_build_conv_awareness_cmd, aap_build_owns_connection_cmd, aap_build_listening_modes_cmd,
}

parse_noise_cmd :
    (m : NoiseControlMode) (r : AapParsedPacket)
    → aap_parse_packet (some (aap_build_noise_control_cmd m)) r
      ≡ some (
        ok,
        record { packet_type = AapPacketType.noise_control; payload = AapPayload.noise_control m },
      )
unfolding aap_parse_packet aap_parse_noise_control aap_build_noise_control_cmd
parse_noise_cmd off r = refl
parse_noise_cmd m r = refl

parse_conv_awareness_cmd :
    (enable : Bool) (r : AapParsedPacket)
    → aap_parse_packet (some (aap_build_conv_awareness_cmd enable)) r
      ≡ some (
        ok,
        record {
          packet_type = AapPacketType.conv_awareness;
          payload = AapPayload.conversational_awareness enable;
        },
      )
unfolding aap_parse_packet aap_build_conv_awareness_cmd
parse_conv_awareness_cmd true r = refl
parse_conv_awareness_cmd false r = refl

parse_listening_modes_cmd :
    (modes : ℕ) (r : AapParsedPacket)
    → aap_parse_packet (some (aap_build_listening_modes_cmd modes)) r
      ≡ some (
        ok,
        record {
          packet_type = AapPacketType.listening_modes;
          payload = AapPayload.listening_modes (listening_modes_of_byte modes);
        },
      )
unfolding aap_parse_packet aap_build_listening_modes_cmd
parse_listening_modes_cmd modes r = refl

parse_unlisted_cmd :
    (level : ℤ) (claim : Bool) (r : AapParsedPacket)
    → (aap_parse_packet (some (aap_build_adaptive_level_cmd level)) r
        ≡ some (ok, set_type AapPacketType.unknown r))
      × (aap_parse_packet (some (aap_build_owns_connection_cmd claim)) r
          ≡ some (ok, set_type AapPacketType.unknown r))
unfolding aap_parse_packet aap_build_adaptive_level_cmd aap_build_owns_connection_cmd
parse_unlisted_cmd level claim r = (refl, refl)

-- The parser reads back each command that the daemon builds: a noise control command as its mode,
-- a conversational awareness command as its switch, a listening modes command as its bits. It
-- takes a noise level or ownership command for an unknown packet, and leaves the result's data.
pub commands_read_back :
    (r : AapParsedPacket) (m : NoiseControlMode) (enable : Bool) (modes : ℕ) (level : ℤ)
    (claim : Bool)
    → (aap_parse_packet (some (aap_build_noise_control_cmd m)) r
        ≡ some (
          ok,
          record {
            packet_type = AapPacketType.noise_control;
            payload = AapPayload.noise_control m;
          },
        ))
      × (aap_parse_packet (some (aap_build_conv_awareness_cmd enable)) r
          ≡ some (
            ok,
            record {
              packet_type = AapPacketType.conv_awareness;
              payload = AapPayload.conversational_awareness enable;
            },
          ))
      × (aap_parse_packet (some (aap_build_listening_modes_cmd modes)) r
          ≡ some (
            ok,
            record {
              packet_type = AapPacketType.listening_modes;
              payload = AapPayload.listening_modes (listening_modes_of_byte modes);
            },
          ))
      × (aap_parse_packet (some (aap_build_adaptive_level_cmd level)) r
          ≡ some (ok, set_type AapPacketType.unknown r))
      × (aap_parse_packet (some (aap_build_owns_connection_cmd claim)) r
          ≡ some (ok, set_type AapPacketType.unknown r))
commands_read_back r m enable modes level claim = (
  parse_noise_cmd m r,
  parse_conv_awareness_cmd enable r,
  parse_listening_modes_cmd modes r,
  (parse_unlisted_cmd level claim r).0,
  (parse_unlisted_cmd level claim r).1,
)

-- The noise level command carries the level that the state keeps: the given one cut to the range
-- from 0 to 100, which fits a byte.
pub adaptive_level_byte :
    (level : ℤ)
    → (n : ℕ) × (byte (aap_build_adaptive_level_cmd level) 7 ≡ some n)
      × (n ≤ 100)
      × (pos n ≡ clamp_percent level)
unfolding aap_build_adaptive_level_cmd
adaptive_level_byte level = (
  if ltb_ℤ level (pos 0) then 0 else if ltb_ℤ (pos 100) level then 100 else pos_part level,
  refl,
  ground arith,
  ground arith,
)
