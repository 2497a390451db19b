-- ===== src/Aap/Metadata.antt =====
-- The parser of metadata: three strings, each ended by a NUL.
use earport_handoff.Base.{
  ℕ, zero, suc, ◌+◌, ◌-◌, Bool, true, false, Option, none, some, [], ◌∷◌, ◌++◌, byte, ◌>>=◌, length,
  ltb, leb, ◌==◌, if◌then◌else◌,
}
use earport_handoff.Base.Text.{Bytes}
use earport_handoff.Aap.Types.{AapParseResult, ok, incomplete, AapMetadata}
use earport_handoff.Aap.Fields.{Parsed}

-- `if (output_position + 1 < destination_size) destination[output_position++] = c`
abbrev pub put : ℕ → Bytes → ℕ → Bytes
put size out c = if ltb (length out + 1) size then out ++ (c ∷ []) else out

-- The `while` loop: the position at its end and the destination's string. The destination has
-- `size` bytes, and `out` is what it holds so far.
unfoldable pub scan_string : ℕ → Bytes → ℕ → ℕ → Bytes → Option (ℕ × Bytes)
scan_string zero buffer position size out = none
scan_string (suc fuel) buffer position size out =
    let round : Option (ℕ × Bytes) = byte buffer position >>= λ c.
    let rest = scan_string fuel buffer (position + 1) size (put size out c) in
    if c == 0 then some (position, out) else rest in
    if ltb position (length buffer) then round else some (position, out)

-- the result, the position behind the string, and the string
unfoldable pub aap_parse_metadata_string : Bytes → ℕ → ℕ → Option (Bool × ℕ × Bytes)
aap_parse_metadata_string buffer position size =
    scan_string (length buffer - position + 1) buffer position size [] >>= λ found.
    if leb (length buffer) found.0
    then some (false, found.0, found.1)
    else some (true, found.0 + 1, found.1)

abbrev pub no_metadata : AapMetadata
no_metadata = record { device_name = []; model_number = []; manufacturer = [] }

abbrev pub ended : Bool → AapParseResult
ended all_found = if all_found then ok else incomplete

-- The fields after one that has no end are not read.
unfoldable pub parse_manufacturer : Bytes → ℕ → AapMetadata → Parsed AapMetadata
unfolding aap_parse_metadata_string
parse_manufacturer buffer position metadata =
    aap_parse_metadata_string buffer position 32 >>= λ third.
    some (ended third.0, some (record metadata { manufacturer = third.2 }))

unfoldable pub parse_model_number : Bytes → ℕ → AapMetadata → Parsed AapMetadata
unfolding aap_parse_metadata_string parse_manufacturer
parse_model_number buffer position metadata =
    aap_parse_metadata_string buffer position 16 >>= λ second.
    let named = record metadata { model_number = second.2 } in
    let rest = parse_manufacturer buffer second.1 named in
    if second.0 then rest else some (incomplete, some named)

unfoldable pub aap_parse_metadata : Bytes → Parsed AapMetadata
unfolding aap_parse_metadata_string parse_model_number
aap_parse_metadata buffer =
    let body : Parsed AapMetadata = aap_parse_metadata_string buffer 12 64 >>= λ first.
    let named = record no_metadata { device_name = first.2 } in
    let rest = parse_model_number buffer first.1 named in
    if first.0 then rest else some (incomplete, some named) in
    if ltb (length buffer) 12 then some (incomplete, none) else body
