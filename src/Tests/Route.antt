-- ===== src/Tests/Route.antt =====
-- Lists of sinks and inputs as pactl prints them.
use earport_handoff.Base.{
  ◌⊎◌, ℕ, ◌<◌, ◌≡◌, refl, Bool, true, false, ◌||◌, some, [], ◌∷◌, ◌++◌, ◌==◌, ltb,
}
use earport_handoff.Base.Text.{Bytes, CString, codes}
use earport_handoff.Route.{
  valid_device_address, sink_name_matches_device, sink_name_priority, audio_route_find_bluez_sink,
  find_sink_in_verbose_output, scan_line, consider_verbose_sink, line_describes_active_profile,
  text_has_a2dp_profile, text_has_call_profile, sink_name_is_bluetooth, restore_from,
  parse_short_sink_line, parse_lines, strsplit, audio_route_find_restore_sink,
  audio_route_parse_sink_input_ids_for_sink, audio_route_parse_configured_sink, configured_name,
  audio_route_parse_default_sink, audio_route_find_sink_index,
}
use earport_handoff.Route.Blocks.{blocks, has_blocks}
use earport_handoff.Route.Safe.{AnyOf, IsMediaBlock, find_bluez_sink_only}
use earport_handoff.Route.Listed.{SinkInput, IsPrintable, print_inputs, input_ids-print}
use earport_handoff.Route.Restored.{lists, restore_preferred}

abbrev white : ℕ → Bool
white c = c == 9 || c == 10 || c == 12 || c == 13 || c == 32

abbrev tab : Bytes
tab = 9 ∷ []

abbrev newline : Bytes
newline = 10 ∷ []

abbrev address : CString
address = some (codes "AA:BB:CC:00:11:22")

abbrev pods_name : Bytes
pods_name = codes "bluez_output.AA_BB_CC_00_11_22.1"

-- a verbose list, with the profile among the properties
abbrev verbose : Bytes
verbose =
    codes "Sink #7"
    ++ newline
    ++ tab
    ++ codes "Name: "
    ++ pods_name
    ++ newline
    ++ tab
    ++ codes "api.bluez5.profile = a2dp-sink"
    ++ newline

finds_pods : audio_route_find_bluez_sink white (some verbose) address ≡ some pods_name
unfolding audio_route_find_bluez_sink find_sink_in_verbose_output scan_line consider_verbose_sink
    line_describes_active_profile text_has_a2dp_profile text_has_call_profile
    sink_name_matches_device sink_name_priority
finds_pods = refl

find_bluez_sink_only_example :
    (valid_device_address address ≡ true)
    × (sink_name_matches_device pods_name address ≡ true)
    × (0 < sink_name_priority pods_name)
    × (AnyOf (IsMediaBlock white pods_name) (blocks white (strsplit b'\n' verbose)).1
        ⊎ ((has_blocks (blocks white (strsplit b'\n' verbose)).1 ≡ false)
            × (sink_name_priority pods_name ≡ 2)))
find_bluez_sink_only_example = find_bluez_sink_only white address verbose pods_name finds_pods

abbrev speakers : Bytes
speakers = codes "alsa_output.pci"

abbrev monitor_name : Bytes
monitor_name = codes "hdmi"

-- a short list
abbrev short : Bytes
short =
    codes "7"
    ++ tab
    ++ pods_name
    ++ tab
    ++ newline
    ++ codes "8"
    ++ tab
    ++ speakers
    ++ tab
    ++ newline
    ++ codes "9"
    ++ tab
    ++ monitor_name
    ++ tab
    ++ newline

restores_speakers : audio_route_find_restore_sink white (some short) address ≡ some speakers
unfolding audio_route_find_restore_sink parse_short_sink_line restore_from sink_name_is_bluetooth
restores_speakers = refl

wired : sink_name_is_bluetooth monitor_name ≡ false
unfolding sink_name_is_bluetooth
wired = refl

listed : lists monitor_name (parse_lines white (strsplit b'\n' short)) ≡ true
unfolding parse_short_sink_line
listed = refl

restore_preferred_example :
    audio_route_find_restore_sink white (some short) (some monitor_name) ≡ some monitor_name
restore_preferred_example = restore_preferred white short monitor_name wired listed

-- two inputs of sink 8, and one of sink 9 between them
abbrev first_input : SinkInput
first_input = record { id = codes "41"; sink = codes "8"; details = codes "71" }

abbrev other_input : SinkInput
other_input = record { id = codes "42"; sink = codes "9"; details = codes "72" }

abbrev last_input : SinkInput
last_input = record { id = codes "143"; sink = codes "8"; details = codes "73" }

first-IsPrintable : IsPrintable white first_input
first-IsPrintable = record {
  id_plain = (refl, (refl, tt));
  sink_plain = (refl, tt);
  one_line = (refl, (refl, (refl, (refl, (refl, (refl, (refl, tt)))))));
  number = refl;
  id_trimmed = refl;
  sink_trimmed = refl;
}

other-IsPrintable : IsPrintable white other_input
other-IsPrintable = record {
  id_plain = (refl, (refl, tt));
  sink_plain = (refl, tt);
  one_line = (refl, (refl, (refl, (refl, (refl, (refl, (refl, tt)))))));
  number = refl;
  id_trimmed = refl;
  sink_trimmed = refl;
}

last-IsPrintable : IsPrintable white last_input
last-IsPrintable = record {
  id_plain = (refl, (refl, (refl, tt)));
  sink_plain = (refl, tt);
  one_line = (refl, (refl, (refl, (refl, (refl, (refl, (refl, (refl, tt))))))));
  number = refl;
  id_trimmed = refl;
  sink_trimmed = refl;
}

input_ids-print_example :
    audio_route_parse_sink_input_ids_for_sink white
      (some (print_inputs (first_input ∷ other_input ∷ last_input ∷ [])))
      (some (codes "8"))
    ≡ codes "41" ∷ codes "143" ∷ []
input_ids-print_example =
    input_ids-print white (first_input ∷ other_input ∷ last_input ∷ []) (codes "8")
      (first-IsPrintable, (other-IsPrintable, (last-IsPrintable, tt)))

abbrev control : ℕ → Bool
control c = ltb c 32 || c == 127

configured_speakers :
    audio_route_parse_configured_sink white control (
      some (
        codes "key:'default.configured.audio.sink' value:'{ \"name\": \"alsa_output.pci\" }'"
        ++ newline))
    ≡ some (codes "alsa_output.pci")
unfolding audio_route_parse_configured_sink configured_name
configured_speakers = refl

default_speakers :
    audio_route_parse_default_sink white (some (codes " alsa_output.pci" ++ newline))
    ≡ some (codes "alsa_output.pci")
unfolding audio_route_parse_default_sink
default_speakers = refl

speakers_index :
    audio_route_find_sink_index white (some short) (some monitor_name) ≡ some (codes "9")
unfolding audio_route_find_sink_index parse_short_sink_line
speakers_index = refl
