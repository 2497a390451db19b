-- ===== src/Route/Sinks.antt =====
-- The choice of the sink of the AirPods.
use earport_handoff.Base.{
  ℕ, ◌+◌, ◌%◌, Bool, true, false, not, ◌&&◌, ◌||◌, none, some, List, [], ◌∷◌, ◌==◌, map, drop,
  length, has_prefix, if◌then◌else◌,
}
use earport_handoff.Base.Text.{Bytes, CString, codes}
use earport_handoff.Route.Text.{strdown, contains, strsplit, is_xdigit, strip_left, strstrip}

-- the loop over an address from an index on
abbrev pub valid_from : ℕ → Bytes → Bool
valid_from i [] = true
valid_from i (c ∷ cs) =
    (if (i + 1) % 3 == 0 then c == b':' else is_xdigit c) && valid_from (i + 1) cs

abbrev pub valid_device_address : CString → Bool
valid_device_address none = false
valid_device_address (some address) = (length address == 17) && valid_from 0 address

abbrev pub underscore : ℕ → ℕ
underscore c = if c == b':' then b'_' else c

unfoldable pub sink_name_matches_device : Bytes → CString → Bool
sink_name_matches_device sink_name none = false
sink_name_matches_device sink_name (some device_address) =
    let lower_name = strdown sink_name in
    let colon_token = strdown device_address in
    valid_device_address (some device_address)
    && contains lower_name (codes "bluez")
    && (contains lower_name colon_token || contains lower_name (map underscore colon_token))

unfoldable pub text_has_a2dp_profile : Bytes → Bool
text_has_a2dp_profile lower_text =
    contains lower_text (codes "a2dp")
    || contains lower_text (codes "high-fidelity")
    || contains lower_text (codes "high_fidelity")

unfoldable pub text_has_call_profile : Bytes → Bool
text_has_call_profile lower_text =
    contains lower_text (codes "headset")
    || contains lower_text (codes "handsfree")
    || contains lower_text (codes "hands-free")
    || contains lower_text (codes "head_unit")
    || contains lower_text (codes "head-unit")
    || contains lower_text (codes "hfp")
    || contains lower_text (codes "hsp")

-- its tests are those of the two functions above
unfoldable pub sink_name_priority : Bytes → ℕ
unfolding text_has_call_profile text_has_a2dp_profile
sink_name_priority sink_name =
    if text_has_call_profile (strdown sink_name)
    then 0
    else if text_has_a2dp_profile (strdown sink_name)
    then 2
    else 1

unfoldable pub line_describes_active_profile : Bytes → Bool
line_describes_active_profile lower_line =
    contains lower_line (codes "api.bluez5.profile")
    || contains lower_line (codes "bluez5.profile")
    || contains lower_line (codes "bluetooth.protocol")
    || contains lower_line (codes "device.profile.name")
    || contains lower_line (codes "device.profile.description")
    || has_prefix lower_line (codes "active port:")

-- `selected` after the call
unfoldable pub consider_verbose_sink : CString → CString → Bool → Bool → CString → CString
unfolding sink_name_matches_device sink_name_priority
consider_verbose_sink (some selected) sink_name profile_is_a2dp profile_is_call device_address =
    some selected
consider_verbose_sink none none profile_is_a2dp profile_is_call device_address = none
consider_verbose_sink none (some sink_name) profile_is_a2dp profile_is_call device_address =
    if not (sink_name_matches_device sink_name device_address)
    then none
    else if profile_is_call || (sink_name_priority sink_name == 0)
    then none
    else if profile_is_a2dp || (sink_name_priority sink_name == 2)
    then some sink_name
    else none

-- the locals of the loop over the lines, with `in_sink`, which `recognized` equals
pub record VerboseScan : Type 0 where
  pub selected : CString
  pub current_name : CString
  pub current_a2dp : Bool
  pub current_call : Bool
  pub in_sink : Bool

abbrev pub close_sink : VerboseScan → CString → CString
close_sink scan device_address =
    if scan.in_sink
    then consider_verbose_sink scan.selected scan.current_name scan.current_a2dp scan.current_call
        device_address
    else scan.selected

-- the text between the first two tabs, if it has any
abbrev pub between_tabs : List Bytes → CString
between_tabs (first ∷ (c ∷ cs) ∷ third ∷ rest) = some (c ∷ cs)
between_tabs _ = none

abbrev pub is_short_candidate : CString → Bytes → Bool
is_short_candidate device_address candidate =
    sink_name_matches_device candidate device_address && (sink_name_priority candidate == 2)

-- the candidate of a line, or that of the later ones
abbrev pub take_short : CString → CString → CString → CString
take_short device_address none later = later
take_short device_address (some candidate) later =
    if is_short_candidate device_address candidate then some candidate else later

-- the first candidate of the lines that may be taken
abbrev pub first_short : CString → List Bytes → CString
first_short device_address [] = none
first_short device_address (line ∷ lines) =
    take_short device_address (between_tabs (strsplit b'\t' line))
      (first_short device_address lines)

module _ (is_space : ℕ → Bool) where
  unfoldable pub scan_line : CString → VerboseScan → Bytes → VerboseScan
  unfolding consider_verbose_sink line_describes_active_profile text_has_a2dp_profile
      text_has_call_profile
  scan_line device_address scan line =
      let trimmed = strstrip is_space line in
      let lower = strdown trimmed in
      if has_prefix trimmed (codes "Sink #")
      then record {
        selected = close_sink scan device_address;
        current_name = none;
        current_a2dp = false;
        current_call = false;
        in_sink = true;
      }
      else if scan.in_sink && has_prefix trimmed (codes "Name:")
      then record scan { current_name = some (strip_left is_space (drop 5 trimmed)) }
      else if scan.in_sink && line_describes_active_profile lower
      then record scan {
        current_a2dp = scan.current_a2dp || text_has_a2dp_profile lower;
        current_call = scan.current_call || text_has_call_profile lower;
      }
      else scan

  abbrev pub scan_lines : CString → VerboseScan → List Bytes → VerboseScan
  scan_lines device_address scan [] = scan
  scan_lines device_address scan (line ∷ lines) =
      scan_lines device_address (scan_line device_address scan line) lines

  -- the sink, and `recognized`
  unfoldable pub find_sink_in_verbose_output : Bytes → CString → CString × Bool
  unfolding scan_line
  find_sink_in_verbose_output pactl_output device_address =
      let start : VerboseScan = record {
        selected = none;
        current_name = none;
        current_a2dp = false;
        current_call = false;
        in_sink = false;
      } in
      let scan = scan_lines device_address start (strsplit b'\n' pactl_output) in
      (close_sink scan device_address, scan.in_sink)

  unfoldable pub audio_route_find_bluez_sink : CString → CString → CString
  unfolding find_sink_in_verbose_output
  audio_route_find_bluez_sink none device_address = none
  audio_route_find_bluez_sink (some pactl_output) device_address =
      let verbose = find_sink_in_verbose_output pactl_output device_address in
      if not (valid_device_address device_address)
      then none
      else if verbose.1
      then verbose.0
      else first_short device_address (strsplit b'\n' pactl_output)
