-- ===== src/Route/Inputs.antt =====
-- The default sink, the configured one, and the inputs of a sink.
use earport_handoff.Base.{
  ℕ, Bool, false, not, ◌&&◌, ◌||◌, Option, none, some, List, [], ◌∷◌, ◌==◌, bytes_equal, has_prefix,
  drop, length, if◌then◌else◌,
}
use earport_handoff.Base.Text.{Bytes, CString, codes, is_nonempty}
use earport_handoff.Route.Text.{contains, strsplit, only_digits, strip_left, strstrip}
use earport_handoff.Route.Restore.{same_name, parse_short_sink_line}

-- `audio_route_should_restore_configured`
unfoldable pub audio_route_should_restore_configured : CString → CString → Bool
audio_route_should_restore_configured none managed_sink = false
audio_route_should_restore_configured (some configured_sink) managed_sink =
    same_name configured_sink managed_sink

-- the text before the first carriage return or line feed
abbrev pub first_line : Bytes → Bytes
first_line [] = []
first_line (c ∷ cs) =
    let rest = first_line cs in if (c == b'\r') || (c == b'\n') then [] else c ∷ rest

-- `strpbrk(line, " \t\r\n") != NULL`
abbrev pub has_blank : Bytes → Bool
has_blank [] = false
has_blank (c ∷ cs) = (c == b' ') || (c == b'\t') || (c == b'\r') || (c == b'\n') || has_blank cs

-- the text behind the first `needle`
abbrev pub behind : Bytes → Bytes → Option Bytes
behind [] needle = none
behind (c ∷ cs) needle =
    let rest = behind cs needle in
    if has_prefix (c ∷ cs) needle then some (drop (length needle) (c ∷ cs)) else rest

abbrev pub and_behind : Option Bytes → Bytes → Option Bytes
and_behind none needle = none
and_behind (some text) needle = behind text needle

abbrev pub or_first : CString → CString → CString
or_first none later = later
or_first (some first) later = some first

abbrev pub add_byte : ℕ → CString → CString
add_byte c none = none
add_byte c (some name) = some (c ∷ name)

abbrev pub nonempty_name : CString → CString
nonempty_name none = none
nonempty_name (some []) = none
nonempty_name (some (c ∷ cs)) = some (c ∷ cs)

module _ (is_space is_cntrl : ℕ → Bool) where
  -- the characters of a name
  abbrev pub in_name : ℕ → Bool
  in_name c = not (c == b'"') && not (is_cntrl c) && not (is_space c)

  -- the name before a quote, where one ends it
  abbrev pub until_quote : Bytes → CString
  until_quote [] = none
  until_quote (c ∷ cs) =
      let rest = add_byte c (until_quote cs) in
      if in_name c then rest else if c == b'"' then some [] else none

  -- behind the spaces after the colon
  abbrev pub quoted_name : Bytes → CString
  quoted_name [] = none
  quoted_name (c ∷ cs) = if c == b'"' then nonempty_name (until_quote cs) else none

  abbrev pub name_behind : CString → CString
  name_behind none = none
  name_behind (some text) = quoted_name (strip_left is_space text)

  unfoldable pub configured_name : Bytes → CString
  configured_name line =
      if contains line (codes "key:'default.configured.audio.sink'")
      then name_behind (and_behind (behind line (codes "\"name\"")) (codes ":"))
      else none

  abbrev pub first_configured : List Bytes → CString
  first_configured [] = none
  first_configured (line ∷ lines) = or_first (configured_name line) (first_configured lines)

  unfoldable pub audio_route_parse_configured_sink : CString → CString
  audio_route_parse_configured_sink none = none
  audio_route_parse_configured_sink (some metadata_output) =
      first_configured (strsplit b'\n' metadata_output)

module _ (is_space : ℕ → Bool) where
  unfoldable pub audio_route_parse_default_sink : CString → CString
  audio_route_parse_default_sink none = none
  audio_route_parse_default_sink (some text) =
      let line = strstrip is_space (first_line text) in
      if not (is_nonempty (some line)) || has_blank line then none else some line

  -- the index, where the line lists the name
  abbrev pub index_of : Bytes → Option (Bytes × Bytes) → CString
  index_of sink_name none = none
  index_of sink_name (some (index, name)) = if bytes_equal name sink_name then some index else none

  abbrev pub first_index : Bytes → List Bytes → CString
  first_index sink_name [] = none
  first_index sink_name (line ∷ lines) =
      or_first (index_of sink_name (parse_short_sink_line is_space line))
        (first_index sink_name lines)

  unfoldable pub audio_route_find_sink_index : CString → CString → CString
  audio_route_find_sink_index none sink_name = none
  audio_route_find_sink_index (some pactl_output) none = none
  audio_route_find_sink_index (some pactl_output) (some sink_name) =
      first_index sink_name (strsplit b'\n' pactl_output)

  -- the id of the input of a line, where it is one of the sink
  unfoldable pub input_of : Bytes → List Bytes → CString
  input_of sink_index (first ∷ second ∷ rest) =
      let id = strstrip is_space first in
      let sink = strstrip is_space second in
      if is_nonempty (some id) && only_digits id && bytes_equal sink sink_index
      then some id
      else none
  input_of sink_index _ = none

  abbrev pub add_id : CString → List Bytes → List Bytes
  add_id none ids = ids
  add_id (some id) ids = id ∷ ids

  abbrev pub ids_of : Bytes → List Bytes → List Bytes
  ids_of sink_index [] = []
  ids_of sink_index (line ∷ lines) =
      add_id (input_of sink_index (strsplit b'\t' line)) (ids_of sink_index lines)

  unfoldable pub audio_route_parse_sink_input_ids_for_sink : CString → CString → List Bytes
  audio_route_parse_sink_input_ids_for_sink none sink_index = []
  audio_route_parse_sink_input_ids_for_sink (some pactl_output) none = []
  audio_route_parse_sink_input_ids_for_sink (some pactl_output) (some sink_index) =
      ids_of sink_index (strsplit b'\n' pactl_output)
