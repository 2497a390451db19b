-- ===== src/Route/Restore.antt =====
-- The choice of the sink to restore.
use earport_handoff.Base.{
  ℕ, Bool, true, false, not, ◌&&◌, Option, none, some, List, [], ◌∷◌, bytes_equal, has_prefix,
  if◌then◌else◌,
}
use earport_handoff.Base.Text.{Bytes, CString, codes, is_nonempty}
use earport_handoff.Route.Text.{strdown, contains, strsplit, only_digits, strstrip}

unfoldable pub sink_name_is_bluetooth : Bytes → Bool
sink_name_is_bluetooth sink_name = contains (strdown sink_name) (codes "bluez")

-- `g_strcmp0(name, other) == 0` for a name that is not NULL
abbrev pub same_name : Bytes → CString → Bool
same_name name none = false
same_name name (some other) = bytes_equal name other

abbrev pub or_first_name : CString → Bytes → CString
or_first_name none name = some name
or_first_name (some first) name = some first

abbrev pub is_set : CString → Bool
is_set none = false
is_set (some name) = true

-- the result where no line has the preferred sink
abbrev pub alsa_or_other : CString → CString → CString
alsa_or_other none first_other = first_other
alsa_or_other (some first_alsa) first_other = some first_alsa

module _ (is_space : ℕ → Bool) where
  -- the two fields, stripped, where the test on them holds
  abbrev pub short_fields : List Bytes → Option (Bytes × Bytes)
  short_fields (first ∷ second ∷ rest) =
      let index = strstrip is_space first in
      let name = strstrip is_space second in
      if is_nonempty (some index) && only_digits index && is_nonempty (some name)
      then some (index, name)
      else none
  short_fields _ = none

  -- the index and the name
  unfoldable pub parse_short_sink_line : Bytes → Option (Bytes × Bytes)
  parse_short_sink_line line = short_fields (strsplit b'\t' line)

  -- the loop over the lines, with the first ALSA sink and the first other one so far
  unfoldable pub restore_from :
      CString → CString → CString → List (Option (Bytes × Bytes)) → CString
  unfolding sink_name_is_bluetooth
  restore_from preferred_sink first_alsa first_other [] = alsa_or_other first_alsa first_other
  restore_from preferred_sink first_alsa first_other (none ∷ lines) =
      restore_from preferred_sink first_alsa first_other lines
  restore_from preferred_sink first_alsa first_other (some (index, name) ∷ lines) =
      let skipped = restore_from preferred_sink first_alsa first_other lines in
      let alsa = restore_from preferred_sink (some name) first_other lines in
      let other = restore_from preferred_sink first_alsa (or_first_name first_other name) lines in
      if sink_name_is_bluetooth name
      then skipped
      else if same_name name preferred_sink
      then some name
      else if has_prefix name (codes "alsa_output.") && not (is_set first_alsa)
      then alsa
      else other

  abbrev pub parse_lines : List Bytes → List (Option (Bytes × Bytes))
  parse_lines [] = []
  parse_lines (line ∷ lines) = parse_short_sink_line line ∷ parse_lines lines

  unfoldable pub audio_route_find_restore_sink : CString → CString → CString
  unfolding parse_short_sink_line restore_from
  audio_route_find_restore_sink none preferred_sink = none
  audio_route_find_restore_sink (some pactl_output) preferred_sink =
      restore_from preferred_sink none none (parse_lines (strsplit b'\n' pactl_output))
